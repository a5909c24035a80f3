-- ===== src/Credential/Acceptable.antt =====
-- The requests that guardCreateClaimRequest of issuer-node/internal/core/services/claims.go lets
-- through.
use e_native_issuer.Common.{
  ℕ, ◌≡◌, refl, Bool, true, false, not, ◌&&◌, Option, none, some, is_some, ok, is_ok, arith,
  Result-cases, inl, inr,
}
use e_native_issuer.Credential.Guard.{
  Formats, Service, SubjectId, absent, not_text, text, Request, lacks_url, check_refresh_service,
  guard_refresh_service, guard_display_method, guard_subject, guard_create_claim_request,
}

-- A service is well formed: it has a URI and the type that there is.
abbrev pub is_usable : Formats → Service → Bool
is_usable f s = not (lacks_url f s) && s.is_supported

abbrev pub is_usable_refresh : Formats → Option ℕ → Option Service → Bool
is_usable_refresh f expiration none = true
is_usable_refresh f expiration (some s) = is_some expiration && is_usable f s

abbrev pub is_usable_display : Formats → Option Service → Bool
is_usable_display f none = true
is_usable_display f (some s) = is_usable f s

abbrev pub is_subject : Formats → SubjectId → Bool
is_subject f absent = true
is_subject f not_text = false
is_subject f (text did) = is_some (f.parse_did did)

-- A request that has a usable schema, usable services and a subject that can be read.
abbrev pub is_acceptable : Formats → Request → Bool
is_acceptable f req =
    f.is_request_uri req.schema
    && is_usable_refresh f req.expiration req.refresh_service
    && is_usable_display f req.display_method
    && is_subject f req.subject_id

module _ (f : Formats) where
  refresh-is_ok :
      (expiration : Option ℕ) (s : Option Service)
      → is_ok (guard_refresh_service f expiration s) ≡ is_usable_refresh f expiration s
  unfolding guard_refresh_service
  refresh-is_ok expiration none = refl
  refresh-is_ok expiration (some s) = ground arith

  display-is_ok : (s : Option Service) → is_ok (guard_display_method f s) ≡ is_usable_display f s
  unfolding guard_display_method
  display-is_ok none = refl
  display-is_ok (some s) = ground arith

  subject-is_ok : (s : SubjectId) → is_ok (guard_subject f s) ≡ is_subject f s
  unfolding guard_subject
  subject-is_ok absent = refl
  subject-is_ok not_text = refl
  subject-is_ok (text did) = ground arith

  checked-is_ok :
      (expiration : Option ℕ) (s : Option Service)
      → is_usable_refresh f expiration s ≡ true
      → check_refresh_service expiration s ≡ ok tt
  unfolding check_refresh_service
  checked-is_ok expiration none h = refl
  checked-is_ok expiration (some s) h = ground (arith, h)

  -- The guards let these requests through, and no others.
  pub guard-is_acceptable :
      (req : Request) → is_ok (guard_create_claim_request f req) ≡ is_acceptable f req
  unfolding guard_create_claim_request
  guard-is_acceptable req =
      let refresh = refresh-is_ok req.expiration req.refresh_service in
      let display = display-is_ok req.display_method in
      let subject = subject-is_ok req.subject_id in
      elim (Result-cases (guard_refresh_service f req.expiration req.refresh_service)) [
        | inl (e, g) ↦
            elim (Result-cases (check_refresh_service req.expiration req.refresh_service)) [
              | inl (d, c) ↦ ground (arith, g, c, refresh)
              | inr (u, c) ↦ ground (arith, g, c, refresh)
            ]
        | inr (v, g) ↦
            let usable : is_usable_refresh f req.expiration req.refresh_service ≡ true =
              ground (arith, g, refresh) in
            let checked = checked-is_ok req.expiration req.refresh_service usable in
            elim (Result-cases (guard_display_method f req.display_method)) [
              | inl (e, d) ↦ ground (arith, g, usable, checked, d, display)
              | inr (u, d) ↦ ground (arith, g, usable, checked, d, display, subject)
            ]
      ]
