-- ===== src/Api/Access.antt =====
-- Who gets past internal/middleware.
use chrono_flow.Common.{
  Bool-cases, ℤ, String, ◌≡◌, refl, ◌↔◌, ◌⊎◌, inl, inr, Bool, true, false, str_eq, eq_iff,
}
use chrono_flow.Api.{
  is_api_path, provided_key, api_security, Request, Text, Verdict, next, unauthorized,
}

-- A request gets past the API key exactly if its path is not of the API, no key is configured, or the
-- key that it provides is the configured one.
pub api_security_iff :
    (text : Text) (api_key : String) (max_request_bytes : ℤ) (request : Request)
    → ((api_security text api_key max_request_bytes request).0 ≡ next) ↔ (
        (is_api_path request.path ≡ false) ⊎ (api_key ≡ "") ⊎ (provided_key text request ≡ api_key))
unfolding api_security
api_security_iff text api_key max_request_bytes request =
    elim (Bool-cases (is_api_path request.path)) [
      | inr t ↦ ((λ h. inl t), (λ h. rw t refl))
      | inl t ↦ elim (Bool-cases (str_eq api_key "")) [
        | inl k ↦ ((λ h. inr (inl ((eq_iff api_key "").0 k))), (λ h. rw (t, k) refl))
        | inr k ↦ elim (Bool-cases (str_eq (provided_key text request) api_key)) [
          | inl p ↦ (
            (λ h. inr (inr ((eq_iff (provided_key text request) api_key).0 p))),
            (λ h. rw (t, k, p) refl),
          )
          | inr p ↦ (
            (λ h. absurd (stopped (rw (t, k, p, api_security) at h))),
            (λ h. absurd (nothing_holds h t k p)),
          )
        ]
      ]
    ]
  where
    stopped : Path Verdict unauthorized next → ⊥
    stopped h = cc

    clash : {b : Bool} → b ≡ false → b ≡ true → ⊥
    clash u v = cc

    nothing_holds :
        (is_api_path request.path ≡ false) ⊎ (api_key ≡ "") ⊎ (provided_key text request ≡ api_key)
        → is_api_path request.path ≡ true
        → str_eq api_key "" ≡ false
        → str_eq (provided_key text request) api_key ≡ false
        → ⊥
    nothing_holds (inl a) t k p = clash a t
    nothing_holds (inr (inl a)) t k p = clash k ((eq_iff api_key "").1 a)
    nothing_holds (inr (inr a)) t k p = clash p ((eq_iff (provided_key text request) api_key).1 a)
