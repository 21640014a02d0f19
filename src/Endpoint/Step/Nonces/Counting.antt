-- ===== src/Endpoint/Step/Nonces/Counting.antt =====
-- Events whose proposals carry consecutive numbers.
use photon_solana_contracts.Prelude.{
  ℕ, ◌+◌, ◌≡◌, refl, sym, ap, ◌∙◌, subst, List, [], ◌∷◌, ◌++◌, append_assoc, append-nil, Option,
  none, some,
}
use photon_solana_contracts.Errors.{Result, ok, err, ok-injective}
use photon_solana_contracts.State.{
  System, Config, ProtocolInfo, Event, ProposeEvent, proposal_loaded, proposal_approved,
  proposal_executed,
}
use photon_solana_contracts.Gov.Dispatch.{GovResult, info_only}
use photon_solana_contracts.Endpoint.Accounts.{config_or_init}

-- The nonces of the proposals among the events.
unfoldable pub nonces : List Event → List ℕ
nonces [] = []
nonces (Event.propose e ∷ events) = e.nonce ∷ nonces events
nonces (proposal_loaded h x ∷ events) = nonces events
nonces (proposal_approved h x ∷ events) = nonces events
nonces (proposal_executed h x ∷ events) = nonces events

-- The numbers from `n` on, up to but without `m`.
abbrev pub IsNumbered : ℕ → ℕ → List ℕ → Type 0
IsNumbered n m [] = m ≡ n
IsNumbered n m (x ∷ xs) = (x ≡ n) × IsNumbered (n + 1) m xs

abbrev pub nonce_of : System → ℕ
nonce_of s = (config_or_init s).nonce

-- From one state to the next: new events, whose proposals are numbered.
abbrev pub Numbered : System → System → Type 0
Numbered s t =
    (new_events : List Event) × (t.events ≡ s.events ++ new_events)
    × IsNumbered (nonce_of s) (nonce_of t) (nonces new_events)

pub IsNumbered-append :
    (n m k : ℕ) (xs ys : List ℕ) → IsNumbered n m xs → IsNumbered m k ys → IsNumbered n k (xs ++ ys)
IsNumbered-append n m k [] ys h j = subst (λ x. IsNumbered x k ys) h j
IsNumbered-append n m k (x ∷ xs) ys h j = (h.0, IsNumbered-append (n + 1) m k xs ys h.1 j)

pub nonces-append : (xs ys : List Event) → nonces (xs ++ ys) ≡ nonces xs ++ nonces ys
unfolding nonces
nonces-append [] ys = refl
nonces-append (Event.propose e ∷ xs) ys = ap (◌∷◌ e.nonce) (nonces-append xs ys)
nonces-append (proposal_loaded h x ∷ xs) ys = nonces-append xs ys
nonces-append (proposal_approved h x ∷ xs) ys = nonces-append xs ys
nonces-append (proposal_executed h x ∷ xs) ys = nonces-append xs ys

pub Numbered-refl : (s : System) → Numbered s s
unfolding nonces
Numbered-refl s = ([], sym (append-nil s.events), refl)

pub Numbered-trans : (s t u : System) → Numbered s t → Numbered t u → Numbered s u
Numbered-trans s t u (xs, e, h) (ys, f, k) = (
  xs ++ ys,
  f ∙ ap (λ l. l ++ ys) e ∙ append_assoc s.events xs ys,
  subst (IsNumbered (nonce_of s) (nonce_of u)) (sym (nonces-append xs ys))
      (IsNumbered-append (nonce_of s) (nonce_of t) (nonce_of u) (nonces xs) (nonces ys) h k),
)

-- What a governance operation does to the nonce.
abbrev pub Counts : ℕ → ℕ → Option ProposeEvent → Type 0
Counts n m none = m ≡ n
Counts n m (some e) = (e.nonce ≡ n) × (m ≡ n + 1)

pub info_only-Counts :
    (config : Config) (changed : Result ProtocolInfo) {r : GovResult}
    → info_only config changed ≡ ok r
    → Counts config.nonce r.1.nonce r.2
info_only-Counts config (err reason) e = absurd (cc e)
info_only-Counts config (ok info) e =
    subst (λ (r : GovResult). Counts config.nonce r.1.nonce r.2) (ok-injective e) refl
