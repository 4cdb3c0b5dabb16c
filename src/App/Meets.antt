-- ===== src/App/Meets.antt =====
-- Rules for the operations of internal/app: what holds when an operation ends, with a result or with
-- an error.
use change_control_plane.Prelude.{
  ◌≡◌, refl, sym, subst, Bool, true, false, Option, none, some, some-injective,
}
use change_control_plane.Auth.{Identity}
use change_control_plane.App.{
  Tables, Call, AppError, unauthorized, Run, done, failed, App, and_then, found, branch, require,
  admitted, require_identity,
}

pub data Meets {A : Type 0} (Q : A → Tables → Type 0) (E : AppError → Tables → Type 0)
    : Run A → Type 0 where
  meets_done : {a : A} {t : Tables} → Q a t → Meets Q E (done a t)
  meets_failed : {e : AppError} {t : Tables} → E e t → Meets Q E (failed e t)

module _ {A : Type 0} {Q : A → Tables → Type 0} {E : AppError → Tables → Type 0} where
  pub bind :
      {B : Type 0} {P : B → Tables → Type 0} {r : Run B} {k : B → App A}
      → Meets P E r
      → ((b : B) (t : Tables) → P b t → Meets Q E (k b t))
      → Meets Q E (and_then r k)
  bind (meets_done p) next = next _ _ p
  bind (meets_failed e) next = meets_failed e

  -- The chain of a chain.
  pub assoc :
      {B C : Type 0} (r : Run C) (n : C → App B) (k : B → App A)
      → Meets Q E (and_then r (λ c u. and_then (n c u) k))
      → Meets Q E (and_then (and_then r n) k)
  assoc (done c t) n k h = h
  assoc (failed e t) n k h = h

  pub mono :
      {P : A → Tables → Type 0} {F : AppError → Tables → Type 0} {r : Run A}
      → Meets P F r
      → ((a : A) (t : Tables) → P a t → Q a t)
      → ((e : AppError) (t : Tables) → F e t → E e t)
      → Meets Q E r
  mono (meets_done p) on_done on_failed = meets_done (on_done _ _ p)
  mono (meets_failed p) on_done on_failed = meets_failed (on_failed _ _ p)

  pub found_rule :
      {B : Type 0} (o : Option B) (e : AppError) {t : Tables} (k : B → App A)
      → (o ≡ none → E e t)
      → ((b : B) → o ≡ some b → Meets Q E (k b t))
      → Meets Q E (and_then (found o e t) k)
  unfolding found
  found_rule none e k missing present = meets_failed (missing refl)
  found_rule (some b) e k missing present = present b refl

  -- The lookup finds what is known.
  pub found_known_rule :
      {B : Type 0} {b : B} (o : Option B) (e : AppError) {t : Tables} (k : B → App A)
      → o ≡ some b
      → Meets Q E (k b t)
      → Meets Q E (and_then (found o e t) k)
  unfolding found
  found_known_rule none e k h p = cc
  found_known_rule (some c) e {t = t} k h p =
      subst (λ b. Meets Q E (k b t)) (sym (some-injective _ _ h)) p

  pub branch_rule :
      (b : Bool) (m n : App A) {t : Tables}
      → (b ≡ true → Meets Q E (m t))
      → (b ≡ false → Meets Q E (n t))
      → Meets Q E (branch b m n t)
  unfolding branch
  branch_rule true m n on_true on_false = on_true refl
  branch_rule false m n on_true on_false = on_false refl

  pub branch_then_rule :
      {B : Type 0} (b : Bool) (m n : App B) (t : Tables) (k : B → App A)
      → (b ≡ true → Meets Q E (and_then (m t) k))
      → (b ≡ false → Meets Q E (and_then (n t) k))
      → Meets Q E (and_then (branch b m n t) k)
  unfolding branch
  branch_then_rule true m n t k on_true on_false = on_true refl
  branch_then_rule false m n t k on_true on_false = on_false refl

  pub require_rule :
      (b : Bool) (m : App (Unit {0})) {t : Tables} (k : Unit {0} → App A)
      → (b ≡ true → Meets Q E (k tt t))
      → (b ≡ false → Meets Q E (and_then (m t) k))
      → Meets Q E (and_then (require b m t) k)
  unfolding require
  require_rule true m k on_true on_false = on_true refl
  require_rule false m k on_true on_false = on_false refl

  admitted_rule :
      (o : Option Identity) {t : Tables} (k : Identity → App A)
      → (((i : Identity) → o ≡ some i → ¬ (i.authenticated ≡ true)) → E unauthorized t)
      → ((i : Identity) → o ≡ some i → i.authenticated ≡ true → Meets Q E (k i t))
      → Meets Q E (and_then (admitted o t) k)
  unfolding admitted
  admitted_rule none k refused next = meets_failed (refused λ i h known. cc)
  admitted_rule (some i) k refused next =
      assoc (require i.authenticated (failed unauthorized) _) _ k (
        require_rule i.authenticated _ _ (λ h. next i refl h)
          (λ h. meets_failed (refused λ j same known. cc)))

  -- Nobody is known where the identity is refused.
  pub require_known_identity_rule :
      (call : Call) {t : Tables} (k : Identity → App A)
      → (((i : Identity) → call.identity ≡ some i → ¬ (i.authenticated ≡ true)) → E unauthorized t)
      → ((i : Identity) → call.identity ≡ some i → i.authenticated ≡ true → Meets Q E (k i t))
      → Meets Q E (and_then (require_identity call t) k)
  unfolding require_identity
  require_known_identity_rule call k refused next = admitted_rule call.identity k refused next

  pub require_identity_rule :
      (call : Call) {t : Tables} (k : Identity → App A)
      → E unauthorized t
      → ((i : Identity) → call.identity ≡ some i → i.authenticated ≡ true → Meets Q E (k i t))
      → Meets Q E (and_then (require_identity call t) k)
  require_identity_rule call k refused next = require_known_identity_rule call k (λ _. refused) next

pub require_end_rule :
    (b : Bool) (m : App (Unit {0})) {E : AppError → Tables → Type 0} {P : Tables → Type 0}
    {t : Tables}
    → (b ≡ true → P t)
    → (b ≡ false → Meets (λ _ u. P u) E (m t))
    → Meets (λ _ u. P u) E (require b m t)
unfolding require
require_end_rule true m on_true on_false = meets_done (on_true refl)
require_end_rule false m on_true on_false = on_false refl

-- The tables stay as they are, and the result satisfies `P`.
abbrev pub Reads : {A : Type 0} → Tables → (A → Type 0) → Run A → Type 0
Reads t P r = Meets (λ a u. (u ≡ t) × P a) (λ e u. u ≡ t) r

pub bind-Reads :
    {A B : Type 0} {P : B → Type 0} {Q : A → Tables → Type 0} {E : AppError → Tables → Type 0}
    (t : Tables) {r : Run B} (k : B → App A)
    → Reads t P r
    → ((e : AppError) → E e t)
    → ((b : B) → P b → Meets Q E (k b t))
    → Meets Q E (and_then r k)
bind-Reads {E = E} t k (meets_failed same) refused next =
    meets_failed (subst (E _) (sym same) (refused _))
bind-Reads {Q = Q} {E = E} t k (meets_done {a = a} (same, p)) refused next =
    subst (λ u. Meets Q E (k a u)) (sym same) (next a p)

-- As `Reads`, and where it fails, `F` is why.
abbrev pub Ends : {A : Type 0} → Tables → (A → Type 0) → Type 0 → Run A → Type 0
Ends t P F r = Meets (λ a u. (u ≡ t) × P a) (λ e u. (u ≡ t) × F) r

pub bind-Ends :
    {A B : Type 0} {P : B → Type 0} {F : Type 0} {Q : A → Tables → Type 0}
    {E : AppError → Tables → Type 0} (t : Tables) {r : Run B} (k : B → App A)
    → Ends t P F r
    → ((e : AppError) → F → E e t)
    → ((b : B) → P b → Meets Q E (k b t))
    → Meets Q E (and_then r k)
bind-Ends {E = E} t k (meets_failed (same, f)) refused next =
    meets_failed (subst (E _) (sym same) (refused _ f))
bind-Ends {Q = Q} {E = E} t k (meets_done {a = a} (same, p)) refused next =
    subst (λ u. Meets Q E (k a u)) (sym same) (next a p)
