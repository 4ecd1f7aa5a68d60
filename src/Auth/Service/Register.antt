-- ===== src/Auth/Service/Register.antt =====
-- Register against the in-memory store: its branches, and the login of a new user.
use training_ops_scheduling.Base.{String, true, false, none, some, ◌≡◌, refl, ap, ◌∙◌, arith}
use training_ops_scheduling.Base.Table.{lookup, insert, lookup-insert_self}
use training_ops_scheduling.Base.Result.{ok, err}
use training_ops_scheduling.Clock.{Time}
use training_ops_scheduling.Auth.Data.{User, AuthError}
use training_ops_scheduling.Auth.Unicode.{Unicode}
use training_ops_scheduling.Auth.Password.{validate_password}
use training_ops_scheduling.Auth.Memory.{
  Store, user_key, get_by_email, create_user, users_of, creator_of,
}
use training_ops_scheduling.Auth.Store.{Error?}
use training_ops_scheduling.Auth.Service.{
  Bcrypt, register, authenticate, locked_at, user_is_there, store_user,
}

module _ (unicode : Unicode) (bcrypt : Bcrypt) where
  abbrev pub sign_up : User → String → Time → Store → Store × Error?
  sign_up user password now s =
      register unicode bcrypt (some (users_of unicode)) (some (creator_of unicode)) user password
        now s

  -- The user that a registration stores.
  abbrev pub registered : User → String → Time → User
  registered user hash now = record user { password_hash = hash; password_changed_at = now }

  stored_user :
      (user : User) (s : Store)
      → get_by_email unicode user.tenant_id user.email s ≡ err AuthError.not_found
      → (create_user unicode user s ≡ (
        record s { users = insert (user_key unicode user.tenant_id user.email) user s.users },
        none,
      ))
  unfolding create_user get_by_email
  stored_user user s missing =
      let absent : lookup (user_key unicode user.tenant_id user.email) s.users ≡ none =
        ground arith in
      rw (absent, create_user) refl

  read_stored :
      (user : User) (s : Store)
      → get_by_email unicode user.tenant_id user.email
          (record s { users = insert (user_key unicode user.tenant_id user.email) user s.users })
        ≡ ok user
  unfolding get_by_email
  read_stored user s =
      rw
        (lookup-insert_self (user_key unicode user.tenant_id user.email) user s.users, get_by_email)
        refl

  module _ (user : User) (password : String) (now : Time) (s : Store) where
    -- A weak password, an address that is taken and a hash that cannot be made are reported, in this
    -- order, and change nothing; otherwise the user is stored with the hash, under the address.
    register_branches :
        ((e : AuthError)
          → validate_password unicode password ≡ some e
          → sign_up user password now s ≡ (s, some e))
        × (validate_password unicode password ≡ none
            → ((taken : User)
                → get_by_email unicode user.tenant_id user.email s ≡ ok taken
                → sign_up user password now s ≡ (s, some AuthError.user_exists))
              × (get_by_email unicode user.tenant_id user.email s ≡ err AuthError.not_found
                  → ((e : AuthError)
                      → bcrypt.generate_from_password password ≡ err e
                      → sign_up user password now s ≡ (s, some e))
                    × ((hash : String)
                        → bcrypt.generate_from_password password ≡ ok hash
                        → ((sign_up user password now s).1 ≡ none)
                          × (get_by_email unicode user.tenant_id user.email
                                (sign_up user password now s).0
                              ≡ ok (registered user hash now)))))
    unfolding register user_is_there store_user
    register_branches = (
      λ e weak. rw (weak, register) refl,
      λ strong. (
        λ taken found. rw (strong, register, found, user_is_there) refl,
        λ missing. (
          λ e failed. rw (strong, register, missing, user_is_there, failed) refl,
          λ hash made.
              let done : sign_up user password now s
                  ≡ create_user unicode (registered user hash now) s =
                rw (strong, register, missing, user_is_there, made, store_user) refl in
              let kept = stored_user (registered user hash now) s missing in
              (
                ap (λ x. x.1) (done ∙ kept),
                ap (λ x. get_by_email unicode user.tenant_id user.email x.0) (done ∙ kept)
                    ∙ read_stored (registered user hash now) s,
              ),
        ),
      ),
    )

    -- A user who registers with a strong password, at an address that is free, logs in with it later,
    -- unless the record that was stored came with a lock, where bcrypt accepts the password that a
    -- hash was made from.
    pub register-authenticate :
        (later : Time) (hash : String)
        → validate_password unicode password ≡ none
        → get_by_email unicode user.tenant_id user.email s ≡ err AuthError.not_found
        → bcrypt.generate_from_password password ≡ ok hash
        → bcrypt.matches hash password ≡ true
        → locked_at later user ≡ false
        → (authenticate unicode bcrypt
            (users_of unicode)
            user.tenant_id
            user.email
            password
            later
            (sign_up user password now s).0).1
          ≡ ok (registered user hash now)
    unfolding authenticate locked_at
    register-authenticate later hash strong missing made accepts unlocked =
        let done = ((register_branches.1 strong).1 missing).1 hash made in
        rw (done.1, authenticate, unlocked, accepts) refl
