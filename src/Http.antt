-- ===== src/Http.antt =====
-- The HTTP interface: backend/router, backend/controller, backend/dto/paging.go and the middleware
-- between them. What Echo does with a request before (the route, the parameters, the cookies, the
-- JSON of the body) is in the request.
pub mod Presenter
pub mod Request
pub mod Controllers
pub mod Router
