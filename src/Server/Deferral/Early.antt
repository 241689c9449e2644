-- ===== src/Server/Deferral/Early.antt =====
-- A completion that a worker posts while the handler that took the ticket still runs.
use http_c.Request.{Request}
use http_c.Response.{Response}
use http_c.Server.Deferral.{Deferral}
