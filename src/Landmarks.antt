-- ===== src/Landmarks.antt =====
-- The reads and the deletion of internal/api/handlers/landmark_handler.go with the parts of
-- internal/services/landmark_service.go and internal/repository/landmark_repository.go under it.
pub mod Params
pub mod Ordering
pub mod Details
pub mod Responses
pub mod Rows
pub mod Admin
pub mod Handlers
pub mod Plans
pub mod Sharing
pub mod Caching
pub mod Creation
pub mod Keys
pub mod Deletion
