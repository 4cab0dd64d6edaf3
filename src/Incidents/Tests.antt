-- ===== src/Incidents/Tests.antt =====
-- Attribution at concrete inputs.
use umans_gate.Base.{ℕ, ◌≡◌, refl, true, List, Option, none}
use umans_gate.Incidents.{DeriveIncidentInput, from_gate, client, derive_incident}

abbrev went_away : DeriveIncidentInput
went_away = record { status = 429; status_source = from_gate; client_aborted = true }

blames_client : (derive_incident went_away).0 ≡ client
unfolding derive_incident
blames_client = refl

-- A parser of nothing: every body is kept as it is.
abbrev no_json : List ℕ → Option ℕ
no_json body = none
