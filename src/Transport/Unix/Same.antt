-- ===== src/Transport/Unix/Same.antt =====
-- The UNIX-domain client against the TCP client.
use mathlib.Core.Path.{fun_ext}
use mlink_device.Prelude.{
  ℕ, zero, suc, ◌≡◌, refl, ap, Bool, true, false, Option, none, some, List, [], ◌∷◌, if◌then◌else◌,
  is_some, drop, take,
}
use mlink_device.Prelude.Bytes.{Bytes}
use mlink_device.Memory.{Heap, M, pure, ◌>>=◌}
use mlink_device.Threads.{Thread}
use mlink_device.Threads as Threads
use mlink_device.Transport.Tcp.{
  TcpState, Receiving, recv_main, SendAnswer, sent, interrupted, failed, WriteEnd, finished,
  send_error, sent_nothing, waiting, Progress, behind, Event, Heard,
}
use mlink_device.Transport.Tcp as Tcp
use mlink_device.Transport.Unix as Unix

write_loop-eq :
    (answers : List SendAnswer) (bs : Bytes)
    → Unix.write_loop answers bs ≡ Tcp.write_loop answers bs
unfolding Unix.write_loop Tcp.write_loop
write_loop-eq answers [] = refl
write_loop-eq [] (b ∷ bs) = refl
write_loop-eq (interrupted ∷ answers) (b ∷ bs) = write_loop-eq answers (b ∷ bs)
write_loop-eq (failed ∷ answers) (b ∷ bs) = refl
write_loop-eq (sent zero ∷ answers) (b ∷ bs) = refl
write_loop-eq (sent (suc n) ∷ answers) (b ∷ bs) =
    ap (behind (b ∷ take n bs)) (write_loop-eq answers (drop n bs))

module _ {C : Type 0} where
  written-eq :
      (state : TcpState C) (p q : Progress) (stop : WriteEnd)
      → p ≡ q
      → Unix.written state p stop ≡ Tcp.written state q stop
  unfolding Unix.close Tcp.close
  written-eq state p q finished e = rw e refl
  written-eq state p q send_error e = rw e refl
  written-eq state p q sent_nothing e = rw e refl
  written-eq state p q waiting e = rw e refl

  write-eq :
      (answers : List SendAnswer) (priv : Option (TcpState C)) (bs : Option Bytes)
      → Unix.write answers priv bs ≡ Tcp.write answers priv bs
  unfolding Unix.write Tcp.write
  write-eq answers priv none = refl
  write-eq answers priv (some []) = refl
  write-eq answers none (some (b ∷ bs)) = refl
  write-eq answers (some state) (some (b ∷ bs)) = rw (write_loop-eq answers (b ∷ bs)) (
      ap
        (λ w.
          if is_some state.sock
          then w
          else record { answer = some false; wire = []; priv = some state })
        (written-eq state (Tcp.write_loop answers (b ∷ bs)) (Tcp.write_loop answers (b ∷ bs)) _
          refl))

  recv_thread-eq :
      (events : List (Event C)) (state : TcpState C)
      → Unix.recv_thread events state ≡ Tcp.recv_thread events state
  unfolding Unix.recv_thread Tcp.recv_thread Unix.close Tcp.close
  recv_thread-eq [] state = refl
  recv_thread-eq (event ∷ events) state =
      ap
        (λ next.
          if state.running
          then Tcp.recv_round state (Tcp.listening state) event next
          else Tcp.over state)
        (fun_ext (recv_thread-eq events))

  -- Every operation answers and leaves the same.
  pub record Agree (connection : Option ℕ) (thread : Bool) (answers : List SendAnswer)
      (events : List (Event C)) (priv : Option (TcpState C)) (h : Heap) : Type 0 where
    pub inits : Unix.init connection thread priv h ≡ Tcp.init connection thread priv h
    pub deinits : Unix.deinit priv h ≡ Tcp.deinit priv h
    pub registers : (cb : Option C) → Unix.callback priv cb h ≡ Tcp.callback priv cb h
    pub writes : (bs : Option Bytes) → Unix.write answers priv bs ≡ Tcp.write answers priv bs
    pub receives :
        (state : TcpState C) → Unix.recv_thread events state ≡ Tcp.recv_thread events state

  get_or_make-eq : (priv : Option (TcpState C)) → Unix.get_or_make priv ≡ Tcp.get_or_make priv
  unfolding Unix.get_or_make Tcp.get_or_make
  get_or_make-eq none = refl
  get_or_make-eq (some state) = refl

  with_thread-eq :
      (state : TcpState C) (made : Option (Thread Receiving))
      → Unix.with_thread state made ≡ Tcp.with_thread state made
  unfolding Unix.close Tcp.close
  with_thread-eq state none = refl
  with_thread-eq state (some thread) = refl

  start_thread-eq :
      (thread : Bool) (state : TcpState C)
      → Unix.start_thread thread state ≡ Tcp.start_thread thread state
  unfolding Unix.start_thread Tcp.start_thread
  start_thread-eq thread state =
      ap
        (λ (f : Option (Thread Receiving) → Bool × TcpState C).
          elim state.recv_thread as (λ o. M (Bool × TcpState C)) [
            | some running ↦ pure (true, state)
            | none ↦ Threads.create thread recv_main >>= λ made. pure (f made)
          ])
        (fun_ext (with_thread-eq state))

  start-eq :
      (connection : Option ℕ) (thread : Bool) (state : TcpState C)
      → Unix.start connection thread state ≡ Tcp.start connection thread state
  unfolding Unix.start Tcp.start Unix.connect Tcp.connect
  start-eq connection thread state =
      ap
        (λ (f : TcpState C → M (Bool × TcpState C)).
          let r = Tcp.connect connection state in if r.0 then f r.1 else pure r)
        (fun_ext (start_thread-eq thread))

  started-eq :
      (connection : Option ℕ) (thread : Bool) (got : Option (TcpState C))
      → Unix.started connection thread got ≡ Tcp.started connection thread got
  started-eq connection thread none = refl
  started-eq connection thread (some state) =
      ap (λ (m : M (Bool × TcpState C)). m >>= λ r. pure (r.0, some r.1))
        (start-eq connection thread state)

  init-eq :
      (connection : Option ℕ) (thread : Bool) (priv : Option (TcpState C)) (h : Heap)
      → Unix.init connection thread priv h ≡ Tcp.init connection thread priv h
  unfolding Unix.init Tcp.init
  init-eq connection thread priv h = rw (get_or_make-eq priv) (
      ap
        (λ (f : Option (TcpState C) → M (Bool × Option (TcpState C))).
          (Tcp.get_or_make priv >>= f) h)
        (fun_ext (started-eq connection thread)))

  deinit-eq : (priv : Option (TcpState C)) (h : Heap) → Unix.deinit priv h ≡ Tcp.deinit priv h
  unfolding Unix.deinit Tcp.deinit
  deinit-eq none h = refl
  deinit-eq (some state) h = refl

  callback-eq :
      (priv : Option (TcpState C)) (cb : Option C) (h : Heap)
      → Unix.callback priv cb h ≡ Tcp.callback priv cb h
  unfolding Unix.callback Tcp.callback
  callback-eq priv cb h = rw (get_or_make-eq priv) refl

-- The client for UNIX-domain sockets does what the TCP client does: for equal answers of the
-- system, `init`, `deinit`, `callback` and `write` return the same and leave the same state and
-- heap, and the receive thread hands on the same chunks.
pub unix-Agree :
    {C : Type 0} (connection : Option ℕ) (thread : Bool) (answers : List SendAnswer)
    (events : List (Event C)) (priv : Option (TcpState C)) (h : Heap)
    → Agree connection thread answers events priv h
unix-Agree connection thread answers events priv h = record {
  inits = init-eq connection thread priv h;
  deinits = deinit-eq priv h;
  registers = λ cb. callback-eq priv cb h;
  writes = write-eq answers priv;
  receives = recv_thread-eq events;
}
