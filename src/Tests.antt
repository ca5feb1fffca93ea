-- ===== src/Tests.antt =====
-- The theorems at concrete inputs, and runs of the model.
mod TokenTests
mod HttpTests
mod SocketTests
mod AuthTests
mod UploadTests
mod VersionData
mod VersionTests
mod QuotaTests
mod NotificationTests
mod PageTests
mod BridgeTests
mod DialogTests
mod KeyTests
mod FileTests
mod FolderTests
mod ShareTests
mod ScreenTests
mod LiveTests
mod AccountTests
