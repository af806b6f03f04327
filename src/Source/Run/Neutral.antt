-- ===== src/Source/Run/Neutral.antt =====
-- Calls of `run` of teleport/src/source.rs that leave the handles and views of the shared memory alone:
-- those of the system, the network and the transport.
use iracing_teleport.Base.{
  ℕ, ◌*◌, ◌^◌, refl, ◌∙◌, List, Bool, true, false, Option, none, some, arith, if◌then◌else◌,
}
use iracing_teleport.Control.{Io, ◌>>◌}
use iracing_teleport.Platform.{
  acquire_timer, boost_thread_priority, set_high_priority, pin_thread_to_core, raise_priority, pin,
}
use iracing_teleport.Setup.{done, with_address, source_setup}
use iracing_teleport.Telemetry.Windows.Balance.{Counts, IsSameOpen}
use iracing_teleport.Source.Run.{Outside, send_fn}

module _ {W : Type 0} (out : Outside W) (c : Counts out.win) where
  -- From `w` to `w'` the count of every handle and every view is the same.
  abbrev pub IsKeptOpen : W → W → Type 0
  IsKeptOpen w w' = (k : ℕ) → IsSameOpen out.win c w w' k

  -- A call of the outside that has nothing to do with handles and views.
  abbrev pub IsNeutral : (W → W) → Type 0
  IsNeutral f = (w : W) → IsKeptOpen w (f w)

  abbrev pub IsNeutralIo : Io W → Type 0
  IsNeutralIo m = IsNeutral (λ w. (m w).1)

  -- The calls of the system and of the network leave handles and views of the memory alone.
  pub record IsApart : Type 0 where
    pub timer_began : IsNeutral (λ w. (out.os.time_begin_period 1 w).1)
    pub timer_ended : IsNeutral (λ w. out.os.time_end_period 1 w)
    pub thread_raised : IsNeutral out.os.raise_thread_priority
    pub class_raised : IsNeutral out.os.raise_priority_class
    pub pinned : (mask : ℕ) → IsNeutral (out.os.set_thread_affinity_mask mask)
    pub socket_made : IsNeutralIo out.net.new_socket
    pub buffer_set : (n : ℕ) → IsNeutralIo (out.net.set_send_buffer_size n)
    pub bound : (address : ℕ) → IsNeutralIo (out.net.bind address)
    pub unblocked : IsNeutralIo out.net.set_nonblocking
    pub connected : (address : ℕ) → IsNeutralIo (out.net.connect address)
    pub sent : (d : List ℕ) → IsNeutral (λ w. (out.send d w).1)
    pub sent_to : (address : ℕ) (d : List ℕ) → IsNeutral (λ w. (out.send_to address d w).1)

  IsKeptOpen-trans : (u v w : W) → IsKeptOpen u v → IsKeptOpen v w → IsKeptOpen u w
  IsKeptOpen-trans u v w p q k = ((q k).0 ∙ (p k).0, (q k).1 ∙ (p k).1)

  >>-IsNeutral : (m n : Io W) → IsNeutralIo m → IsNeutralIo n → IsNeutralIo (m >> n)
  >>-IsNeutral m n p q w k = let a = p w k in let b = q (m w).1 k in ground arith

  with_address-IsNeutral :
      (address : Option ℕ) (m : ℕ → Io W)
      → ((a : ℕ) → IsNeutralIo (m a))
      → IsNeutralIo (with_address address m)
  unfolding with_address
  with_address-IsNeutral none m p w k = (refl, refl)
  with_address-IsNeutral (some a) m p w k = p a w k

  connect_if-IsNeutral :
      (a : IsApart) (unicast : Bool) (address : ℕ)
      → IsNeutralIo (if unicast then out.net.connect address else done)
  unfolding done
  connect_if-IsNeutral a true address w k = a.connected address w k
  connect_if-IsNeutral a false address w k = (refl, refl)

  pub source_setup-IsNeutral :
      IsApart
      → (bind target : List ℕ) (unicast : Bool)
      → IsNeutralIo (source_setup out.net out.parse bind target unicast)
  unfolding source_setup
  source_setup-IsNeutral a bind target unicast =
      let net = out.net in
      let sized = net.new_socket >> net.set_send_buffer_size (2 * 1024 * 1024) in
      let bound = sized >> with_address (out.parse bind) net.bind in
      let last = with_address (out.parse target) (λ t. if unicast then net.connect t else done) in
      >>-IsNeutral (bound >> net.set_nonblocking) last
        (>>-IsNeutral bound net.set_nonblocking
          (>>-IsNeutral sized (with_address (out.parse bind) net.bind)
            (>>-IsNeutral net.new_socket (net.set_send_buffer_size (2 * 1024 * 1024)) a.socket_made
              (a.buffer_set (2 * 1024 * 1024)))
            (with_address-IsNeutral (out.parse bind) net.bind a.bound))
          a.unblocked)
        (with_address-IsNeutral (out.parse target) (λ t. if unicast then net.connect t else done)
          (connect_if-IsNeutral a unicast))

  raise_priority-IsNeutral :
      IsApart → (high_priority : Bool) → IsNeutral (raise_priority out.os high_priority)
  unfolding raise_priority set_high_priority
  raise_priority-IsNeutral a true w k = a.class_raised w k
  raise_priority-IsNeutral a false w k = (refl, refl)

  pin-IsNeutral : IsApart → (pin_core : Option ℕ) → IsNeutral (pin out.os pin_core)
  unfolding pin pin_thread_to_core
  pin-IsNeutral a none w k = (refl, refl)
  pin-IsNeutral a (some core) w k = let l = a.pinned (2 ^ core) w k in ground arith

  pub prepare-IsNeutral :
      IsApart
      → (high_priority : Bool) (pin_core : Option ℕ)
      → IsNeutral (λ w. pin out.os pin_core (
          raise_priority out.os high_priority
            (boost_thread_priority out.os (acquire_timer out.os w))))
  unfolding boost_thread_priority acquire_timer
  prepare-IsNeutral a high_priority pin_core w k =
      let w1 = (out.os.time_begin_period 1 w).1 in
      let w2 = out.os.raise_thread_priority w1 in
      let w3 = raise_priority out.os high_priority w2 in
      let l1 = a.timer_began w k in
      let l2 = a.thread_raised w1 k in
      let l3 = raise_priority-IsNeutral a high_priority w2 k in
      let l4 = pin-IsNeutral a pin_core w3 k in
      (l4.0 ∙ l3.0 ∙ l2.0 ∙ l1.0, l4.1 ∙ l3.1 ∙ l2.1 ∙ l1.1)

  pub send_fn-IsNeutral :
      IsApart
      → (unicast : Bool) (target_addr : Option ℕ) (d : List ℕ)
      → IsNeutral (λ w. (send_fn out unicast target_addr d w).1)
  unfolding send_fn
  send_fn-IsNeutral a true target_addr d w k = a.sent d w k
  send_fn-IsNeutral a false none d w k = (refl, refl)
  send_fn-IsNeutral a false (some address) d w k = a.sent_to address d w k
