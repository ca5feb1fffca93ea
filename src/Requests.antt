-- ===== src/Requests.antt =====
-- The requests that the functions of lib/api/*.ts (frontend) make: which service, method, path,
-- query parameters and JSON body. A field of a body that is `undefined` is not sent, as
-- JSON.stringify has it, so a body is the list of the fields that are. The response types are not
-- checked at run time by the source, and are not part of a request.
pub mod Files
pub mod Folders
pub mod Shares
pub mod Uploads
pub mod Accounts
pub mod Placement
use optiflow.Prelude.{
  ℕ, ◌++◌, Option, none, some, List, [], ◌∷◌, String, is_truthy, concat, if◌then◌else◌,
}

pub data Service : Type 0 where
  auth api upload notify : Service

pub data Method : Type 0 where
  get post patch delete : Method

pub data Json : Type 0 where
  str : String → Json
  num : ℕ → Json

pub record Request : Type 0 where
  pub service : Service
  pub method : Method
  pub path : String
  pub params : List (String × String)
  pub body : List (String × Json)

-- A request with neither parameters nor a body.
abbrev pub plain : Service → Method → String → Request
plain s m p = record { service = s; method = m; path = p; params = []; body = [] }

abbrev pub with_body : Service → Method → String → List (String × Json) → Request
with_body s m p fields = record { service = s; method = m; path = p; params = []; body = fields }

-- `x ? { key: x } : undefined`
abbrev pub param_if : String → Option String → List (String × String)
param_if key none = []
param_if key (some v) = if is_truthy (some v) then (key, v) ∷ [] else []

-- A field of a body that may be `undefined`.
abbrev pub str_field : String → Option String → List (String × Json)
str_field key none = []
str_field key (some v) = (key, str v) ∷ []

abbrev pub num_field : String → Option ℕ → List (String × Json)
num_field key none = []
num_field key (some n) = (key, num n) ∷ []

-- A field that may be `undefined` (not sent), null, or a string.
pub data Nullable : Type 0 where
  undefined null : Nullable
  value : String → Nullable

-- `x === null ? "" : x`
abbrev pub null_as_empty : Nullable → Option String
null_as_empty undefined = none
null_as_empty null = some ""
null_as_empty (value v) = some v

-- `${a}${b}${c}`
abbrev pub path3 : String → String → String → String
path3 a b c = concat a (concat b c)
