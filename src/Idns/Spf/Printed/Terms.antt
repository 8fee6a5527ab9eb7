-- ===== src/Idns/Spf/Printed/Terms.antt =====
-- The loop of idns/src/parse/spf.rs on the terms of a record.
use npm.Text.{Text}
use npm.Idns.Spf.{Spf}
