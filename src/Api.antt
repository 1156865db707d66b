-- ===== src/Api.antt =====
-- The request layer of the browser client, static/js/api.js: `Fetch` has the transport, `Auth` the
-- session handling around it, `Endpoints` the calls that the views make.
pub mod Json
pub mod Fetch
pub mod Auth
pub mod Call
pub mod Endpoints
pub mod Calls
