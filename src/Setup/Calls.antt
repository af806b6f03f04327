-- ===== src/Setup/Calls.antt =====
-- The calls that set a socket up, in their order: all of them on success, else those before the one
-- that failed.
use iracing_teleport.Base.{
  ℕ, ◌*◌, ◌≡◌, refl, sym, ap, ◌∙◌, List, [], ◌∷◌, ◌++◌, Bool, true, false, Option, none, some,
  append_assoc, if◌then◌else◌,
}
use mathlib.Core.List.{append-nil}
use iracing_teleport.Control.{Io, ◌>>◌}
use iracing_teleport.Protocol.Sender.{ErrorKind, other, Result, ok, err}
use iracing_teleport.Setup.{Net, done, with_address, source_setup, target_setup}

pub data Call : Type 0 where
  new_socket : Call
  set_send_buffer_size : ℕ → Call
  set_recv_buffer_size : ℕ → Call
  set_reuse_address : Call
  bind : ℕ → Call
  set_nonblocking : Call
  set_read_timeout : ℕ → Call
  connect : ℕ → Call
  join_multicast : ℕ → Call

err-ne-ok : (e : ErrorKind) → (let r : Result (Unit {0}) = err e in r ≡ ok tt) → ⊥
err-ne-ok e h = cc

module _ {W : Type 0} (log : W → List Call) where
  -- From the state `w` all of these calls were made if the operation succeeded, and else the first of
  -- them.
  abbrev pub IsTracedAt : W → Result (Unit {0}) × W → List Call → Type 0
  IsTracedAt w (r, w') calls =
      (r ≡ ok tt → log w' ≡ log w ++ calls)
      × ((made : List Call) × (rest : List Call) × (made ++ rest ≡ calls)
          × (log w' ≡ log w ++ made))

  abbrev pub IsTraced : Io W → List Call → Type 0
  IsTraced m calls = (w : W) → IsTracedAt w (m w) calls

  >>-IsTraced :
      (m k : Io W) (xs ys : List Call)
      → IsTraced m xs
      → IsTraced k ys
      → IsTraced (m >> k) (xs ++ ys)
  >>-IsTraced m k xs ys p q w =
      let (r, w1) = m w in
      let (all, first_calls) = p w in
      let (made, rest, whole, logged) = first_calls in
      (elim r
          as (λ r'.
            r ≡ r'
            → IsTracedAt w
                (elim r' as (λ _. Result (Unit {0}) × W) [ ok _ ↦ k w1 | err e ↦ (err e, w1) ])
                (xs ++ ys)) [
                  | ok _ ↦ λ done_first.
                      let first = all done_first in
                      let (all', later_calls) = q w1 in
                      let (made', rest', whole', logged') = later_calls in
                      let further : (l : List Call) → log w1 ++ l ≡ log w ++ (xs ++ l) =
                        λ l. ap (λ t. t ++ l) first ∙ append_assoc (log w) xs l in
                      (
                        λ e. all' e ∙ further ys,
                        (
                          xs ++ made',
                          rest',
                          append_assoc xs made' rest' ∙ ap (λ t. xs ++ t) whole',
                          logged' ∙ further made',
                        ),
                      )
                  | err e ↦ λ failed_first. (
                    λ h. absurd (err-ne-ok e h),
                    (
                      made,
                      rest ++ ys,
                      sym (append_assoc made rest ys) ∙ ap (λ t. t ++ ys) whole,
                      logged,
                    ),
                  )
                ])
        refl

  done-IsTraced : IsTraced done []
  unfolding done
  done-IsTraced w = (λ _. sym (append-nil (log w)), ([], [], refl, sym (append-nil (log w))))

  -- The call with an address, if it could be parsed.
  abbrev pub address_calls : Option ℕ → (ℕ → List Call) → List Call
  address_calls none calls = []
  address_calls (some address) calls = calls address

  with_address-IsTraced :
      (address : Option ℕ) (k : ℕ → Io W) (calls : ℕ → List Call)
      → ((a : ℕ) → IsTraced (k a) (calls a))
      → IsTraced (with_address address k) (address_calls address calls)
  unfolding with_address
  with_address-IsTraced none k calls p w =
      (λ h. absurd (err-ne-ok other h), ([], [], refl, sym (append-nil (log w))))
  with_address-IsTraced (some a) k calls p w = p a w

  -- What the calls of the network add to the log: each itself, and nothing when it fails.
  pub record IsLogged (net : Net W) : Type 0 where
    pub new_socket_logged : IsTraced net.new_socket (new_socket ∷ [])
    pub send_buffer_logged :
        (n : ℕ) → IsTraced (net.set_send_buffer_size n) (set_send_buffer_size n ∷ [])
    pub recv_buffer_logged :
        (n : ℕ) → IsTraced (net.set_recv_buffer_size n) (set_recv_buffer_size n ∷ [])
    pub reuse_logged : IsTraced net.set_reuse_address (set_reuse_address ∷ [])
    pub bind_logged : (a : ℕ) → IsTraced (net.bind a) (bind a ∷ [])
    pub nonblocking_logged : IsTraced net.set_nonblocking (set_nonblocking ∷ [])
    pub timeout_logged : (n : ℕ) → IsTraced (net.set_read_timeout n) (set_read_timeout n ∷ [])
    pub connect_logged : (a : ℕ) → IsTraced (net.connect a) (connect a ∷ [])
    pub join_logged : (a : ℕ) → IsTraced (net.join_multicast a) (join_multicast a ∷ [])

  module _ (net : Net W) (l : IsLogged net) (parse : List ℕ → Option ℕ) where
    -- The calls that set the source's socket up.
    abbrev pub source_calls : List ℕ → List ℕ → Bool → List Call
    source_calls bind_text target unicast =
        (new_socket ∷ [])
        ++ (set_send_buffer_size (2 * 1024 * 1024) ∷ [])
        ++ address_calls (parse bind_text) (λ a. bind a ∷ [])
        ++ (set_nonblocking ∷ [])
        ++ address_calls (parse target) (λ a. if unicast then connect a ∷ [] else [])

    connect-IsTraced :
        (unicast : Bool) (a : ℕ)
        → IsTraced
            (if unicast then net.connect a else done)
            (if unicast then connect a ∷ [] else [])
    connect-IsTraced true a = l.connect_logged a
    connect-IsTraced false a = done-IsTraced

    -- The source sets its socket up by a socket, its send buffer, its address, non-blocking, and for
    -- unicast the connection, in this order, an address that cannot be parsed left out: if the set-up
    -- succeeds these calls succeeded, and whatever fails, those that succeeded are the first of them.
    pub source_setup-IsTraced :
        (bind_text target : List ℕ) (unicast : Bool)
        → IsTraced
            (source_setup net parse bind_text target unicast)
            (source_calls bind_text target unicast)
    unfolding source_setup
    source_setup-IsTraced bind_text target unicast =
        >>-IsTraced _ _ _ _
          (>>-IsTraced _ _ _ _
            (>>-IsTraced _ _ _ _
              (>>-IsTraced _ _ _ _ l.new_socket_logged (l.send_buffer_logged (2 * 1024 * 1024)))
              (with_address-IsTraced (parse bind_text) net.bind (λ a. bind a ∷ []) l.bind_logged))
            l.nonblocking_logged)
          (with_address-IsTraced (parse target) (λ a. if unicast then net.connect a else done)
            (λ a. if unicast then connect a ∷ [] else []) (connect-IsTraced unicast))

    -- The calls that set the target's socket up.
    abbrev pub target_calls : List ℕ → List ℕ → Bool → Bool → List Call
    target_calls bind_text group unicast busy_wait =
        (new_socket ∷ [])
        ++ (set_recv_buffer_size (2 * 1024 * 1024) ∷ [])
        ++ (set_reuse_address ∷ [])
        ++ address_calls (parse bind_text) (λ a. bind a ∷ [])
        ++ (if busy_wait then set_nonblocking ∷ [] else set_read_timeout 1 ∷ [])
        ++ (if unicast then [] else address_calls (parse group) (λ a. join_multicast a ∷ []))

    wait-IsTraced :
        (busy_wait : Bool)
        → IsTraced
            (if busy_wait then net.set_nonblocking else net.set_read_timeout 1)
            (if busy_wait then set_nonblocking ∷ [] else set_read_timeout 1 ∷ [])
    wait-IsTraced true = l.nonblocking_logged
    wait-IsTraced false = l.timeout_logged 1

    join-IsTraced :
        (unicast : Bool) (group : List ℕ)
        → IsTraced
            (if unicast then done else with_address (parse group) net.join_multicast)
            (if unicast then [] else address_calls (parse group) (λ a. join_multicast a ∷ []))
    join-IsTraced true group = done-IsTraced
    join-IsTraced false group =
        with_address-IsTraced (parse group) net.join_multicast (λ a. join_multicast a ∷ [])
          l.join_logged

    -- The target sets its socket up by a socket, its receive buffer, the reuse of its address, the
    -- address, how it waits, and for multicast the group, in this order, an address that cannot be
    -- parsed left out: if the set-up succeeds these calls succeeded, and whatever fails, those that
    -- succeeded are the first of them.
    pub target_setup-IsTraced :
        (bind_text group : List ℕ) (unicast busy_wait : Bool)
        → IsTraced
            (target_setup net parse bind_text group unicast busy_wait)
            (target_calls bind_text group unicast busy_wait)
    unfolding target_setup
    target_setup-IsTraced bind_text group unicast busy_wait =
        >>-IsTraced _ _ _ _
          (>>-IsTraced _ _ _ _
            (>>-IsTraced _ _ _ _
              (>>-IsTraced _ _ _ _
                (>>-IsTraced _ _ _ _ l.new_socket_logged (l.recv_buffer_logged (2 * 1024 * 1024)))
                l.reuse_logged)
              (with_address-IsTraced (parse bind_text) net.bind (λ a. bind a ∷ []) l.bind_logged))
            (wait-IsTraced busy_wait))
          (join-IsTraced unicast group)
