-- ===== src/Api/Endpoints.antt =====
-- static/js/api.js, the calls of the views: what they share, and a child for each kind of thing.
pub mod Issues
pub mod Content
pub mod Users
pub mod Projects
