-- ===== src/Finding/Rejected.antt =====
-- Proposals of an issue that a human has rejected (app/modules/finding/service.py).
use regnova.Finding.Model.{Finding}
