-- ===== src/Server/Requests.antt =====
-- internal/server/handlers.go: the requests that validateRequest lets pass.
use resillm.Common.{
  ℕ, ◌+◌, ◌≤◌, ◌≡◌, ◌≢◌, ◌↔◌, refl, inl, inr, eq_iff, true, false, none, List, [], ◌∷◌, All, length,
  arith, pos, ◌≤ℤ◌, FloatOps, Bool-cases,
}
use resillm.Api.{ChatRequest, Message}
use resillm.Server.{max_messages, max_tokens_limit, is_role, check_roles, validate_request}

abbrev pub HasRole : Message → Type 0
HasRole m = is_role m.role ≡ true

check_roles-All : (i : ℕ) (ms : List Message) → (check_roles i ms ≡ none) ↔ All HasRole ms
unfolding check_roles
check_roles-All i [] = (λ h. tt, λ h. refl)
check_roles-All i (m ∷ ms) = elim (Bool-cases (is_role m.role)) [
  | inl e ↦
      let (there, back) = check_roles-All (i + 1) ms in
      (λ h. (e, there (rw (e, check_roles) at h)), λ h. rw (e, check_roles) (back h.1))
  | inr e ↦ (λ h. ground arith, λ h. ground (arith, h.0))
]

module _ (F : FloatOps) where
  pub record IsRequest (req : ChatRequest F) : Type 0 where
    pub model : req.model ≢ ""
    pub messages : 1 ≤ length req.messages
    pub few : length req.messages ≤ max_messages
    pub tokens : req.max_tokens ≤ℤ max_tokens_limit
    pub temperature_low : F.lt req.temperature (F.of_int (pos 0)) ≡ false
    pub temperature_high : F.lt (F.of_int (pos 2)) req.temperature ≡ false
    pub top_p_low : F.lt req.top_p (F.of_int (pos 0)) ≡ false
    pub top_p_high : F.lt (F.of_int (pos 1)) req.top_p ≡ false
    pub roles : All HasRole req.messages

  -- `validateRequest` lets a request pass exactly when it names a model, has 1 to 100 messages, all of
  -- a role that is known, asks for at most 100000 tokens, and its temperature and top_p are not
  -- outside 0 to 2 and 0 to 1 (a NaN is not).
  pub validate_request_iff : (req : ChatRequest F) → (validate_request req ≡ none) ↔ IsRequest req
  unfolding validate_request
  validate_request_iff req =
      let (there, back) = check_roles-All 0 req.messages in
      (
        λ h. record {
          model = ground (arith, eq_iff req.model "");
          messages = ground arith;
          few = ground arith;
          tokens = ground arith;
          temperature_low = ground arith;
          temperature_high = ground arith;
          top_p_low = ground arith;
          top_p_high = ground arith;
          roles = there (ground arith);
        },
        λ h. ground (arith, eq_iff req.model "", h.model, back h.roles),
      )
