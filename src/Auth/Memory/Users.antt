-- ===== src/Auth/Memory/Users.antt =====
-- The user table of the in-memory store: a write to the first entry with a tenant and an ID.
use training_ops_scheduling.Base.{
  String, Bool, true, false, none, some, ◌≡◌, refl, subst, inl, inr, [], ◌∷◌, arith, str_eq,
  str_eq_iff, str_eq_refl, Bool-cases,
}
use training_ops_scheduling.Base.Table.{Table, lookup, insert, lookup-insert_self}
use training_ops_scheduling.Base.Invariant.{Each, Each-insert}
use training_ops_scheduling.Base.Result.{ok}
use training_ops_scheduling.Clock.{Time}
use training_ops_scheduling.Auth.Data.{User}
use training_ops_scheduling.Auth.Unicode.{Unicode}
use training_ops_scheduling.Auth.Memory.{
  Store, user_key, update_first, is_user, failed_user, reset_user, write_users,
  increment_failed_attempts, reset_failed_attempts, get_by_email,
}

-- Only the entry under the key passes the test.
abbrev Only : (User → Bool) → String → Table User → Type 0
Only p key = Each (λ k user. p user ≡ true → k ≡ key)

update_first_lem :
    (p : User → Bool) (f : User → User) (key : String) (user : User) (m : Table User)
    → lookup key m ≡ some user
    → p user ≡ true
    → Only p key m
    → update_first p f m ≡ some (insert key (f user) m)
unfolding update_first lookup insert
update_first_lem p f key user [] found pass only = cc
update_first_lem p f key user ((k, w) ∷ m) found pass only = elim (Bool-cases (p w)) [
  | inl on ↦
      let here : str_eq k key ≡ true = (str_eq_iff k key).1 (only.0 on) in
      let same : w ≡ user = ground arith in rw (on, update_first, here, insert, same) refl
  | inr off ↦ elim (Bool-cases (str_eq k key)) [
    | inl here ↦
        let same : w ≡ user = ground arith in
        let off' : p user ≡ false = subst (λ x. p x ≡ false) same off in absurd (cc)
    | inr away ↦
        let found' : lookup key m ≡ some user = ground arith in
        rw (off, update_first, away, insert, update_first_lem p f key user m found' pass only.1)
          refl
  ]
]

-- The user's tenant and ID stand under one key only.
abbrev pub UniqueId : Unicode → String → User → Store → Type 0
UniqueId unicode email user s =
    Only (is_user user.tenant_id user.id) (user_key unicode user.tenant_id email) s.users

module _ (unicode : Unicode) (email : String) (user : User) (s : Store) where
  pub get_by_email-ok_iff :
      (t : String)
      → (get_by_email unicode t email s ≡ ok user)
      → (lookup (user_key unicode t email) s.users ≡ some user)
  unfolding get_by_email
  get_by_email-ok_iff t h = ground arith

  -- The store with the user under the address replaced.
  abbrev pub rewritten : (User → User) → Store
  rewritten f = record s { users = insert (user_key unicode user.tenant_id email) (f user) s.users }

  module _ (found : get_by_email unicode user.tenant_id email s ≡ ok user)
      (unique : UniqueId unicode email user s) where
    self : is_user user.tenant_id user.id user ≡ true
    unfolding is_user
    self = ground (arith, str_eq_refl user.tenant_id, str_eq_refl user.id)

    written :
        (f : User → User)
        → write_users s (update_first (is_user user.tenant_id user.id) f s.users)
          ≡ (rewritten f, none)
    unfolding write_users
    written f =
        rw
          (update_first_lem (is_user user.tenant_id user.id) f
            (user_key unicode user.tenant_id email) user s.users
            (get_by_email-ok_iff user.tenant_id found) self unique)
          refl

    pub increment_failed_attempts_lem :
        (now : Time)
        → increment_failed_attempts user.tenant_id user.id now s
          ≡ (rewritten (failed_user now), none)
    unfolding increment_failed_attempts
    increment_failed_attempts_lem now = written (failed_user now)

    pub reset_failed_attempts_lem :
        reset_failed_attempts user.tenant_id user.id s ≡ (rewritten reset_user, none)
    unfolding reset_failed_attempts
    reset_failed_attempts_lem = written reset_user

    pub get_by_email-rewritten :
        (f : User → User) → get_by_email unicode user.tenant_id email (rewritten f) ≡ ok (f user)
    unfolding get_by_email
    get_by_email-rewritten f =
        rw
          (
            lookup-insert_self (user_key unicode user.tenant_id email) (f user) s.users,
            get_by_email,
          )
          refl

    pub UniqueId-failed :
        (now : Time) → UniqueId unicode email (failed_user now user) (rewritten (failed_user now))
    unfolding failed_user
    UniqueId-failed now =
        Each-insert
          (λ k w.
            is_user user.tenant_id user.id w ≡ true → k ≡ user_key unicode user.tenant_id email)
          (user_key unicode user.tenant_id email) (failed_user now user) s.users (λ _. refl) unique
