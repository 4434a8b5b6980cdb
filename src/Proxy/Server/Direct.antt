-- ===== src/Proxy/Server/Direct.antt =====
-- What the helper (`serve`, src/proxy.C) does for the object of one client, and the same calls on
-- that object where it is not in a helper.
use mathlib.Core.Option
use mathlib.Core.List.{append-nil}
use libptytty.Base.{
  ℕ, zero, suc, ◌≡◌, refl, ap, ◌∙◌, ℤ, true, false, Option, none, some, List, [], ◌∷◌, ◌++◌, arith,
  length, take, ◌==◌, if◌then◌else◌, is_some, Bool-cases, Option-cases, inl, inr,
}
use libptytty.Sys.{Os, Command, Trace, M, Run, ok, throws, crash, pure, ◌>>=◌, and_then}
use libptytty.Config.{Config}
use libptytty.Unix.{Unix, TtyConf}
use libptytty.Session.{login, delete_unix, login_with}
use libptytty.Proxy.Commands.{Login, NoZeros, login_request, session_commands}
use libptytty.Proxy.Client.{destroy_request}
use libptytty.Proxy.Hostname.{NoZero, host_of-strncpy}
use libptytty.Proxy.Server.{
  State, handle, handle_login, login_object, delete_object, destroy_at, handle_destroy,
}
use libptytty.Proxy.Server.Objects.{Heap, lookup, add, store, free, find}
use libptytty.Proxy.Server.Vector.{erase-append}

-- No object lives at the address, and it is not in the vector.
abbrev pub IsFresh : ℕ → State → Type 0
IsFresh id s = (find id s.ptys ≡ none) × (lookup id s.heap ≡ none)

-- The state behind `retain`.
abbrev pub holding : ℕ → Unix → State → State
holding id o s = record { ptys = s.ptys ++ (id ∷ []); heap = add id o s.heap }

module _ (k : ℕ) where
  missed :
      (j : ℕ) (o : Unix) (x : Option Unix)
      → (if j == k then some o else x) ≡ none
      → (j == k) ≡ false
  missed j o x h = elim (Bool-cases (j == k)) [
    | inl hit ↦ let e : some o ≡ none = rw hit at h in cc
    | inr miss ↦ miss
  ]

  later : (j : ℕ) (o : Unix) (x : Option Unix) → (if j == k then some o else x) ≡ none → x ≡ none
  later j o x h = let m = missed j o x h in rw m at h

  lookup-add : (o : Unix) (h : Heap) → lookup k h ≡ none → lookup k (add k o h) ≡ some o
  unfolding lookup add
  lookup-add o [] e = ground arith
  lookup-add o ((j, p) ∷ h) e =
      let rest = lookup-add o h (later j p (lookup k h) e) in rw (missed j p (lookup k h) e) rest

  store-add : (o o' : Unix) (h : Heap) → lookup k h ≡ none → store k o' (add k o h) ≡ add k o' h
  unfolding lookup add store
  store-add o o' [] e = ground arith
  store-add o o' ((j, p) ∷ h) e =
      let rest = store-add o o' h (later j p (lookup k h) e) in
      rw (missed j p (lookup k h) e) (ap (◌∷◌ (j, p)) rest)

  free-add : (o : Unix) (h : Heap) → lookup k h ≡ none → free k (add k o h) ≡ h
  unfolding lookup add free
  free-add o [] e = ground arith
  free-add o ((j, p) ∷ h) e =
      let rest = free-add o h (later j p (lookup k h) e) in
      rw (missed j p (lookup k h) e) (ap (◌∷◌ (j, p)) rest)

  find-append : (ids : List ℕ) → find k ids ≡ none → find k (ids ++ (k ∷ [])) ≡ some (length ids)
  unfolding find
  find-append [] e = ground arith
  find-append (j ∷ ids) e = elim (Bool-cases (j == k)) [
    | inl hit ↦ let x : Path (Option ℕ) (some zero) none = rw hit at e in cc
    | inr miss ↦
        let x : Option.map suc (find k ids) ≡ none = rw miss at e in
        elim (Option-cases (find k ids)) [
          | inl gone ↦ rw (miss, find-append ids gone) refl
          | inr (i, there) ↦ let y : some (suc i) ≡ none = rw there at x in cc
        ]
  ]

-- Runs that are equal, continued alike.
and_then_assoc :
    {A B C : Type 0} (r : Run A) (k : A → M B) (l : B → M C)
    → and_then (and_then r k) l ≡ and_then r (λ a w. and_then (k a w) l)
and_then_assoc (ok a w) k l = refl
and_then_assoc (throws e w) k l = refl
and_then_assoc (crash w) k l = refl

and_then_cong :
    {A B : Type 0} (r : Run A) (k l : A → M B)
    → ((a : A) (w : Trace) → k a w ≡ l a w)
    → and_then r k ≡ and_then r l
and_then_cong (ok a w) k l h = h a w
and_then_cong (throws e w) k l h = refl
and_then_cong (crash w) k l h = refl

module _ (os : Os) (c : Config) (conf : TtyConf) where
  -- Logins and the destructor, on an object at hand.
  unfoldable pub session_direct : List Login → Unix → M (Unit {0})
  session_direct [] o = do _ ← delete_unix os c conf o; pure tt
  session_direct (l ∷ ls) o = do
    o ← login os c o l.cmd_pid l.login_shell (some (take 511 l.hostname))
    session_direct ls o

  module _ (sock_fd : ℤ) where
    -- The commands one after the other, until one stops the loop.
    unfoldable pub handle_all : List Command → State → M State
    handle_all [] s = pure s
    handle_all (cmd ∷ cmds) s = do
      (more, s) ← handle os c conf sock_fd cmd.kind cmd s
      if more then handle_all cmds s else pure s

    module _ (id : ℕ) (s : State) (fresh : IsFresh id s) where
      found : (o : Unix) → find id (holding id o s).ptys ≡ some (length s.ptys)
      found o = find-append id s.ptys fresh.0

      login_object-direct :
          (l : Login) (o : Unix) (w : Trace)
          → NoZero l.hostname
          → login_object os c conf sock_fd (login_request id l) (holding id o s) w
            ≡ and_then
                (login os c o l.cmd_pid l.login_shell (some (take 511 l.hostname)) w)
                λ o'. pure (holding id o' s)
      unfolding login_object
      login_object-direct l o w z =
          rw (lookup-add id o s.heap fresh.1, host_of-strncpy l.hostname z)
            (and_then_cong (login os c o l.cmd_pid l.login_shell (some (take 511 l.hostname)) w) _ _
              λ o' v.
                ap (λ h. ok (record { ptys = s.ptys ++ (id ∷ []); heap = h }) v)
                  (store-add id o o' s.heap fresh.1))

      handle_login_on :
          (l : Login) (o : Unix) (w : Trace)
          → is_some c.utmp_support ≡ true
          → handle_login os c conf sock_fd (login_request id l) (holding id o s) w
            ≡ login_object os c conf sock_fd (login_request id l) (holding id o s) w
      unfolding handle_login
      handle_login_on l o w e = rw (e, found o) refl

      handle_login-direct :
          (l : Login) (o : Unix) (w : Trace)
          → NoZero l.hostname
          → handle_login os c conf sock_fd (login_request id l) (holding id o s) w
            ≡ and_then
                (login os c o l.cmd_pid l.login_shell (some (take 511 l.hostname)) w)
                λ o'. pure (holding id o' s)
      unfolding handle_login login login_with
      handle_login-direct l o w z = elim (Option-cases c.utmp_support) [
        | inl off ↦ rw off refl
        | inr (db, on) ↦ handle_login_on l o w (ap is_some on) ∙ login_object-direct l o w z
      ]

      handle_destroy-direct :
          (o : Unix) (w : Trace)
          → handle_destroy os c conf sock_fd (destroy_request id) (holding id o s) w
            ≡ and_then (delete_unix os c conf o w) λ _. pure s
      unfolding handle_destroy delete_object destroy_at
      handle_destroy-direct o w =
          rw
            (
              found o,
              lookup-add id o s.heap fresh.1,
              erase-append s.ptys [] id,
              append-nil s.ptys,
              free-add id o s.heap fresh.1,
            )
            (and_then_assoc (delete_unix os c conf o w) _ _)

      -- The command behind a run that leaves the object as `a`.
      then_all :
          {A : Type 0} (r : Run A) (cmds : List Command) (f : A → State) (k : A → M (Unit {0}))
          → ((a : A) (v : Trace) → handle_all cmds (f a) v ≡ and_then (k a v) λ _. pure s)
          → and_then
              (and_then (and_then r λ a. pure (f a)) λ x. pure (true, x))
              (λ (more, x). if more then handle_all cmds x else pure x)
            ≡ and_then (and_then r k) λ _. pure s
      then_all (ok a v) cmds f k h = h a v
      then_all (throws e v) cmds f k h = refl
      then_all (crash v) cmds f k h = refl

      pub handle_all-direct :
          (ls : List Login) (o : Unix) (w : Trace)
          → NoZeros ls
          → handle_all (session_commands id ls) (holding id o s) w
            ≡ and_then (session_direct ls o w) λ _. pure s
      unfolding handle_all session_direct handle
      handle_all-direct [] o w z =
          rw (handle_destroy-direct o w)
            (then_all (delete_unix os c conf o w) [] (λ _. s) (λ _. pure tt) λ _ v. refl)
      handle_all-direct (l ∷ ls) o w z = rw (handle_login-direct l o w z.0) (
          then_all _ (session_commands id ls) (λ o'. holding id o' s) (session_direct ls)
            λ o' v. handle_all-direct ls o' v z.1)
