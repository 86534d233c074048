-- ===== src/Transport/Tcp/Listen.antt =====
-- The chunks that the receive thread hands on (core/transport/hwio/tcp.c).
use mlink_device.Prelude.{ℕ, ◌≡◌, refl, ap, Bool, true, false, some, List, [], ◌∷◌, if◌then◌else◌}
use mlink_device.Prelude.Bytes.{Bytes}
use mlink_device.Transport.Tcp.{
  close, Event, got, hung_up, no_data, broken, changed, heard, recv_thread,
}
use mlink_device.Transport.Tcp.Start.{up}

module _ {C : Type 0} where
  -- No other thread changes the state.
  abbrev pub IsUndisturbed : List (Event C) → Type 0
  IsUndisturbed [] = Unit
  IsUndisturbed (changed state ∷ events) = ⊥
  IsUndisturbed (event ∷ events) = IsUndisturbed events

  -- The chunks in front of the first end of the connection, each for one callback.
  abbrev pub chunks : C → List (Event C) → List (C × Bytes)
  chunks cb [] = []
  chunks cb (got chunk ∷ events) = (cb, chunk) ∷ chunks cb events
  chunks cb (hung_up ∷ events) = []
  chunks cb (broken ∷ events) = []
  chunks cb (event ∷ events) = chunks cb events

  -- Whether the connection ends.
  abbrev pub ends : List (Event C) → Bool
  ends [] = false
  ends (hung_up ∷ events) = true
  ends (broken ∷ events) = true
  ends (event ∷ events) = ends events

  -- On a connected socket with a callback, where no other thread changes the state: the receive
  -- thread hands the chunks that come in front of the first end of the connection to the
  -- callback, each once and in their order, whatever interruptions there are; it ends with that
  -- end, with the socket closed, and without one it goes on with the state as it was.
  pub recv_thread-chunks :
      (events : List (Event C)) (sock : ℕ) (cb : C)
      → IsUndisturbed events
      → recv_thread events (up sock (some cb)) ≡ record {
        calls = chunks cb events;
        ended = ends events;
        state = if ends events then close (up sock (some cb)) else up sock (some cb);
      }
  unfolding recv_thread
  recv_thread-chunks [] sock cb u = refl
  recv_thread-chunks (got chunk ∷ events) sock cb u =
      ap (heard ((cb, chunk) ∷ [])) (recv_thread-chunks events sock cb u)
  recv_thread-chunks (hung_up ∷ events) sock cb u = refl
  recv_thread-chunks (no_data ∷ events) sock cb u = recv_thread-chunks events sock cb u
  recv_thread-chunks (broken ∷ events) sock cb u = refl
  recv_thread-chunks (changed state ∷ events) sock cb u = absurd u
