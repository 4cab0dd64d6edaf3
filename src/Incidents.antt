-- ===== src/Incidents.antt =====
-- Attribution of answers that are not 200 (src/incidents.ts).
-- Texts are lists of UTF-16 units. `parse` stands for `JSON.parse`, none where it throws, with values
-- in `J`; `field` reads a property of an object, none where there is no such property or the value
-- is no object, and `as_string` a string value. A recorded incident is the argument of
-- `db.recordIncident`, whose errors the source swallows.
mod Tests
use umans_gate.Base.{
  ℕ, ◌≤◌, ◌≡◌, ◌≢◌, ◌↔◌, ◌⊎◌, refl, Bool, true, false, List, [], ◌∷◌, ◌++◌, codes, Option, none,
  some, arith, nat_beq, leb, ltb, take, if◌then◌else◌, ◌||◌, not,
}

pub data ResponsibleParty : Type 0 where
  upstream proxy client : ResponsibleParty

pub data IncidentType : Type 0 where
  upstream_error ttft_timeout id_rewrite rate_limited gate_rejected client_aborted : IncidentType

pub data StatusSource : Type 0 where
  from_upstream from_gate : StatusSource

pub record DeriveIncidentInput : Type 0 where
  pub status : ℕ
  pub status_source : StatusSource
  pub client_aborted : Bool

from_gate_signals : DeriveIncidentInput → ResponsibleParty × IncidentType
from_gate_signals i =
    if i.client_aborted
    then (client, IncidentType.client_aborted)
    else if nat_beq i.status 429
    then (proxy, rate_limited)
    else if nat_beq i.status 504
    then (proxy, ttft_timeout)
    else (proxy, gate_rejected)

unfoldable pub derive_incident : DeriveIncidentInput → ResponsibleParty × IncidentType
unfolding from_gate_signals
derive_incident i = elim i.status_source [
  | from_upstream ↦ (upstream, upstream_error)
  | from_gate ↦ from_gate_signals i
]

pub record Incident : Type 0 where
  pub capture_id : ℕ
  pub responsible_party : ResponsibleParty
  pub incident_type : IncidentType
  pub upstream_status : ℕ
  pub served_status : ℕ
  pub reason : Option (List ℕ)

module _ {J : Type 0} (parse : List ℕ → Option J) (field : List ℕ → J → Option J)
    (as_string : J → Option (List ℕ)) where
  -- The property of a value, if it is a string.
  abbrev pub text_field : List ℕ → J → Option (List ℕ)
  text_field name value = elim (field name value) [ none ↦ none | some v ↦ as_string v ]

  -- The type and the message of an upstream error (`isUpstreamError`).
  unfoldable pub upstream_error_of : J → Option (List ℕ × List ℕ)
  upstream_error_of value = elim (field (codes "error") value) [
    | none ↦ none
    | some err ↦ elim (text_field (codes "type") err) [
      | none ↦ none
      | some kind ↦ elim (text_field (codes "message") err) [
        | none ↦ none
        | some message ↦ some (kind, message)
      ]
    ]
  ]

  -- A missing body is empty; what is kept is cut after 200 units.
  unfoldable pub extract_upstream_reason : List ℕ → Option (List ℕ)
  unfolding upstream_error_of
  extract_upstream_reason [] = none
  extract_upstream_reason (c ∷ cs) = elim (parse (c ∷ cs)) [
    | none ↦ some (take 200 (c ∷ cs))
    | some value ↦ elim (upstream_error_of value) [
      | none ↦ some (take 200 (c ∷ cs))
      | some (kind, message) ↦ some (take 200 (kind ++ (codes ": " ++ message)))
    ]
  ]

  -- What is recorded of an answer of the upstream.
  abbrev incident_of : ℕ → ℕ → Bool → List ℕ → Incident
  incident_of id status aborted body =
      let (party, kind) =
        derive_incident
          (record { status = status; status_source = from_upstream; client_aborted = aborted }) in
      record {
        capture_id = id;
        responsible_party = party;
        incident_type = kind;
        upstream_status = status;
        served_status = status;
        reason = extract_upstream_reason body;
      }

  -- The incident that is recorded, if any.
  unfoldable pub maybe_record_upstream_incident :
      ℕ → ℕ → Option StatusSource → Bool → List ℕ → Option Incident
  unfolding extract_upstream_reason
  maybe_record_upstream_incident id status (some from_upstream) aborted body =
      if ltb status 400 then none else some (incident_of id status aborted body)
  maybe_record_upstream_incident id status _ aborted body = none

  -- An incident is recorded exactly for an answer of the upstream of status 400 or more, and it blames
  -- the upstream.
  pub recorded_iff :
      (id status : ℕ) (source : Option StatusSource) (aborted : Bool) (body : List ℕ)
      → ((i : Incident) × (maybe_record_upstream_incident id status source aborted body ≡ some i)
          × (i.responsible_party ≡ upstream))
        ↔ ((source ≡ some from_upstream) × (400 ≤ status))
  unfolding maybe_record_upstream_incident derive_incident
  recorded_iff id status none aborted body = ((λ h. cc (h.1)), (λ h. cc (h.0)))
  recorded_iff id status (some from_gate) aborted body = ((λ h. cc (h.1)), (λ h. cc (h.0)))
  recorded_iff id status (some from_upstream) aborted body = (
    (λ h. (refl, ground (arith, h.1))),
    (λ h. (incident_of id status aborted body, ground (arith, h.1), refl)),
  )
