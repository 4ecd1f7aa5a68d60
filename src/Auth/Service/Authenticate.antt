-- ===== src/Auth/Service/Authenticate.antt =====
-- Authenticate against the in-memory store: its branches, and the lock after five failures.
use training_ops_scheduling.Base.{
  ℕ, suc, ◌+◌, ◌*◌, ◌≤◌, ◌<◌, String, true, false, none, some, ◌≡◌, refl, sym, ap, subst, ◌∙◌, List,
  [], ◌∷◌, arith, length, All,
}
use training_ops_scheduling.Base.Int.{pos, increment}
use training_ops_scheduling.Base.Result.{Result, ok, err}
use training_ops_scheduling.Clock.{Time, minute}
use training_ops_scheduling.Auth.Data.{User, AuthError}
use training_ops_scheduling.Auth.Unicode.{Unicode}
use training_ops_scheduling.Auth.Memory.{Store, get_by_email, failed_user, reset_user, users_of}
use training_ops_scheduling.Auth.Memory.Users.{
  UniqueId, rewritten, increment_failed_attempts_lem, reset_failed_attempts_lem,
  get_by_email-rewritten, UniqueId-failed,
}
use training_ops_scheduling.Auth.Service.{Bcrypt, authenticate, locked_at}

module _ (unicode : Unicode) (bcrypt : Bcrypt) where
  abbrev pub attempt : String → String → String → Time → Store → Store × Result AuthError User
  attempt tenant_id email password now s =
      authenticate unicode bcrypt (users_of unicode) tenant_id email password now s

  -- Authenticate answers that the credentials are invalid for an unknown address; that the account is
  -- locked, without a look at the password, before the end of a lock; that the credentials are
  -- invalid for a wrong password, which it counts; and it returns the user and clears the count
  -- for the right one. Only the last two change the store, and only this user.
  authenticate_branches :
      (tenant_id email password : String) (now : Time) (s : Store)
      → ((e : AuthError)
          → get_by_email unicode tenant_id email s ≡ err e
          → attempt tenant_id email password now s ≡ (s, err AuthError.invalid_credentials))
        × ((user : User)
            → get_by_email unicode user.tenant_id email s ≡ ok user
            → UniqueId unicode email user s
            → (locked_at now user ≡ true
                → attempt user.tenant_id email password now s ≡ (s, err AuthError.account_locked))
              × (locked_at now user ≡ false
                  → bcrypt.matches user.password_hash password ≡ false
                  → attempt user.tenant_id email password now s ≡ (
                    rewritten unicode email user s (failed_user now),
                    err AuthError.invalid_credentials,
                  ))
              × (locked_at now user ≡ false
                  → bcrypt.matches user.password_hash password ≡ true
                  → attempt user.tenant_id email password now s
                    ≡ (rewritten unicode email user s reset_user, ok user)))
  unfolding authenticate
  authenticate_branches tenant_id email password now s = (
    λ e missing. rw (missing, authenticate) refl,
    λ user found unique. (
      λ locked. rw (found, authenticate, locked) refl,
      λ unlocked wrong.
          rw (found, authenticate, unlocked, wrong)
            (ap (λ x. (x.0, err AuthError.invalid_credentials))
              (increment_failed_attempts_lem unicode email user s found unique now)),
      λ unlocked right.
          rw (found, authenticate, unlocked, right)
            (ap (λ x. (x.0, ok user))
              (reset_failed_attempts_lem unicode email user s found unique)),
    ),
  )

  pub attempts : String → String → List (String × Time) → Store → Store
  attempts tenant_id email [] s = s
  attempts tenant_id email ((password, now) ∷ rest) s =
      attempts tenant_id email rest (attempt tenant_id email password now s).0

  -- The address finds the user, under a key of the user's own.
  record Known (tenant_id email : String) (user : User) (s : Store) : Type 0 where
    found : get_by_email unicode tenant_id email s ≡ ok user
    tenant : user.tenant_id ≡ tenant_id
    unique : UniqueId unicode email user s

  Known-wrong :
      (t email password : String) (now : Time) (user : User) (s : Store)
      → Known t email user s
      → locked_at now user ≡ false
      → bcrypt.matches user.password_hash password ≡ false
      → Known t email (failed_user now user) (attempt t email password now s).0
  unfolding failed_user
  Known-wrong t email password now user s k unlocked wrong =
      subst
        (λ x.
          get_by_email unicode x email s ≡ ok user
          → Known x email (failed_user now user) (attempt x email password now s).0)
        k.tenant
        (λ found.
          let done =
            (((authenticate_branches user.tenant_id email password now s).1 user found k.unique).1)
              unlocked wrong in
          subst
            (λ (r : Store × Result AuthError User).
              Known user.tenant_id email (failed_user now user) r.0)
            (sym done)
            (record {
              found = get_by_email-rewritten unicode email user s found k.unique (failed_user now);
              tenant = refl;
              unique = UniqueId-failed unicode email user s found k.unique now;
            }))
        k.found

  Known-locked :
      (t email password : String) (now : Time) (user : User) (s : Store)
      → Known t email user s
      → locked_at now user ≡ true
      → attempt t email password now s ≡ (s, err AuthError.account_locked)
  unfolding authenticate
  Known-locked t email password now user s k locked = rw (k.found, authenticate, locked) refl

  -- The user has no lock, and failed so many times.
  record Counted (tenant_id email hash : String) (count : ℕ) (s : Store) : Type 0 where
    user : User
    known : Known tenant_id email user s
    same_hash : user.password_hash ≡ hash
    counted : user.failed_attempts ≡ pos count
    unlocked : user.locked_until ≡ none

  increment-small : (count : ℕ) → count ≤ 4 → increment (pos count) ≡ pos (suc count)
  unfolding increment
  increment-small count h = grind arith

  unlocked_now : (now : Time) (user : User) → user.locked_until ≡ none → locked_at now user ≡ false
  unfolding locked_at
  unlocked_now now user h = rw (h, locked_at) refl

  failed_user-below :
      (now : Time) (user : User) (count : ℕ)
      → count < 4
      → user.failed_attempts ≡ pos count
      → user.locked_until ≡ none
      → ((failed_user now user).failed_attempts ≡ pos (suc count))
        × ((failed_user now user).locked_until ≡ none)
  unfolding failed_user
  failed_user-below now user count h counted unlocked =
      let next : increment user.failed_attempts ≡ pos (suc count) =
        ap increment counted ∙ increment-small count (omega arith) in
      (next, ground arith)

  failed_user-fifth :
      (now : Time) (user : User)
      → user.failed_attempts ≡ pos 4
      → (failed_user now user).locked_until ≡ some (now + 15 * minute)
  unfolding failed_user
  failed_user-fifth now user counted =
      let next : increment user.failed_attempts ≡ pos 5 =
        ap increment counted ∙ increment-small 4 (omega arith) in
      rw (next, failed_user) refl

  abbrev pub Wrong : String → String × Time → Type 0
  Wrong hash (password, now) = bcrypt.matches hash password ≡ false

  hash_kept : (now : Time) (user : User) → (failed_user now user).password_hash ≡ user.password_hash
  unfolding failed_user
  hash_kept now user = refl

  Counted-attempts :
      (t email hash : String) (tries : List (String × Time)) (count : ℕ) (s : Store)
      → count + length tries ≤ 4
      → All (Wrong hash) tries
      → Counted t email hash count s
      → Counted t email hash (count + length tries) (attempts t email tries s)
  unfolding attempts
  Counted-attempts t email hash [] count s h wrong c =
      let same : count + 0 ≡ count = omega arith in
      subst (λ n. Counted t email hash n s) (sym same) c
  Counted-attempts t email hash ((password, now) ∷ rest) count s h wrong c =
      let free = unlocked_now now c.user c.unlocked in
      let bad : bcrypt.matches c.user.password_hash password ≡ false =
        ap (λ x. bcrypt.matches x password) c.same_hash ∙ wrong.0 in
      let (counted, unlocked) =
        failed_user-below now c.user count (omega arith) c.counted c.unlocked in
      let same : suc count + length rest ≡ count + suc (length rest) = omega arith in
      subst (λ n. Counted t email hash n (attempts t email rest (attempt t email password now s).0))
        same
        (Counted-attempts t email hash rest (suc count) (attempt t email password now s).0
          (omega arith) wrong.1
          (record {
            user = failed_user now c.user;
            known = Known-wrong t email password now c.user s c.known free bad;
            same_hash = hash_kept now c.user ∙ c.same_hash;
            counted = counted;
            unlocked = unlocked;
          }))

  Known-right :
      (t email password : String) (now : Time) (user : User) (s : Store)
      → Known t email user s
      → locked_at now user ≡ false
      → bcrypt.matches user.password_hash password ≡ true
      → (attempt t email password now s).1 ≡ ok user
  unfolding authenticate
  Known-right t email password now user s k unlocked right =
      rw (k.found, authenticate, unlocked, right) refl

  -- After four tries with wrong passwords of a user without failures or a lock, a fifth one locks the
  -- account: for fifteen minutes no password is accepted and the store does not change, and after
  -- them the right password is accepted again.
  pub five_failures_lock :
      (t email fifth : String) (at : Time) (tries : List (String × Time)) (user : User) (s : Store)
      → get_by_email unicode t email s ≡ ok user
      → user.tenant_id ≡ t
      → UniqueId unicode email user s
      → user.failed_attempts ≡ pos 0
      → user.locked_until ≡ none
      → length tries ≡ 4
      → All (Wrong user.password_hash) tries
      → bcrypt.matches user.password_hash fifth ≡ false
      → let s' = (attempt t email fifth at (attempts t email tries s)).0 in
        ((password : String) (now : Time)
          → now < at + 15 * minute
          → attempt t email password now s' ≡ (s', err AuthError.account_locked))
        × ((password : String) (now : Time)
            → at + 15 * minute ≤ now
            → bcrypt.matches user.password_hash password ≡ true
            → (found : User) × ((attempt t email password now s').1 ≡ ok found))
  unfolding locked_at
  five_failures_lock t email fifth at tries user s found tenant unique none_yet open_yet four wrong
        bad =
      let start : Counted t email user.password_hash 0 s = record {
        user = user;
        known = record { found = found; tenant = tenant; unique = unique };
        same_hash = refl;
        counted = none_yet;
        unlocked = open_yet;
      } in
      let c = Counted-attempts t email user.password_hash tries 0 s (omega arith) wrong start in
      let four' : 0 + length tries ≡ 4 = omega arith in
      let last = failed_user at c.user in
      let s4 = attempts t email tries s in
      let k : Known t email last (attempt t email fifth at s4).0 =
        Known-wrong t email fifth at c.user s4 c.known (unlocked_now at c.user c.unlocked)
          (ap (λ x. bcrypt.matches x fifth) c.same_hash ∙ bad) in
      let until : last.locked_until ≡ some (at + 15 * minute) =
        failed_user-fifth at c.user (c.counted ∙ ap pos four') in
      (
        λ password now early.
            Known-locked t email password now last (attempt t email fifth at s4).0 k
              (rw (until, locked_at) (ground arith)),
        λ password now late right. (
          last,
          Known-right t email password now last (attempt t email fifth at s4).0 k
              (rw (until, locked_at) (ground arith))
              (ap (λ x. bcrypt.matches x password) (hash_kept at c.user ∙ c.same_hash) ∙ right),
        ),
      )
