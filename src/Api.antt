-- ===== src/Api.antt =====
-- The handlers of the API: permissions, the serializers of requests and of responses, and the calls
-- of the services between them.
pub mod Permissions
pub mod Queries
pub mod Concerns
pub mod Assigned
pub mod Advice
pub mod AdviceViews
pub mod Feedback
pub mod Advisors
pub mod Notifications
pub mod Oauth
pub mod Sessions
pub mod SessionViews
pub mod Users
pub mod Requests
pub mod Gatekeeping
pub mod Reading
pub mod Reads
pub mod Renewal
pub mod Hidden
pub mod Callback
pub mod Signup
pub mod Aside
pub mod Writers
pub mod Refines
