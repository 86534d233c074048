-- ===== src/Transport/Tcp/Write.antt =====
-- `hwio_tcp_write` of core/transport/hwio/tcp.c: what reaches the wire, and when the call returns.
use mathlib.Core.Path.{subst}
use mlink_device.Prelude.{
  ℕ, zero, suc, ◌+◌, ◌≤◌, ◌≡◌, ◌≢◌, refl, sym, ap, Bool-cases, is_some, ◌∙◌, inl, inr, true, false,
  Option, none, some, List, [], ◌∷◌, ◌++◌, length, take, drop, arith, take-append-drop, length-drop,
}
use mlink_device.Prelude.Bytes.{Bytes}
use mlink_device.Transport.Tcp.{
  TcpState, close, SendAnswer, sent, interrupted, failed, WriteEnd, finished, send_error,
  sent_nothing, waiting, Progress, write_loop, Written, written, write,
}

append_assoc : (xs ys zs : Bytes) → (xs ++ ys) ++ zs ≡ xs ++ (ys ++ zs)
append_assoc [] ys zs = refl
append_assoc (x ∷ xs) ys zs = ap (◌∷◌ x) (append_assoc xs ys zs)

-- What is on the wire and what is left are the bytes, and they are all sent where the loop ends.
pub record Sent (bs : Bytes) (p : Progress) : Type 0 where
  pub split : p.wire ++ p.left ≡ bs
  pub all_sent : p.stop ≡ finished → p.left ≡ []

write_loop-Sent : (answers : List SendAnswer) (bs : Bytes) → Sent bs (write_loop answers bs)
unfolding write_loop
write_loop-Sent answers [] = record { split = refl; all_sent = λ e. refl }
write_loop-Sent [] (b ∷ bs) = record { split = refl; all_sent = λ e. absurd (ground arith) }
write_loop-Sent (interrupted ∷ answers) (b ∷ bs) = write_loop-Sent answers (b ∷ bs)
write_loop-Sent (failed ∷ answers) (b ∷ bs) = record {
  split = refl;
  all_sent = λ e. absurd (ground arith);
}
write_loop-Sent (sent zero ∷ answers) (b ∷ bs) = record {
  split = refl;
  all_sent = λ e. absurd (ground arith);
}
write_loop-Sent (sent (suc n) ∷ answers) (b ∷ bs) = record {
  split = ap (◌∷◌ b) (
      append_assoc (take n bs) _ _
      ∙ ap (◌++◌ (take n bs)) (write_loop-Sent answers (drop n bs)).split
      ∙ take-append-drop n bs);
  all_sent = (write_loop-Sent answers (drop n bs)).all_sent;
}

-- Answers that move the loop on: an interruption, or at least one byte.
abbrev pub IsMoving : List SendAnswer → Type 0
IsMoving [] = Unit
IsMoving (interrupted ∷ answers) = IsMoving answers
IsMoving (failed ∷ answers) = ⊥
IsMoving (sent zero ∷ answers) = ⊥
IsMoving (sent (suc n) ∷ answers) = IsMoving answers

abbrev pub accepted : List SendAnswer → ℕ
accepted [] = 0
accepted (sent n ∷ answers) = n + accepted answers
accepted (interrupted ∷ answers) = accepted answers
accepted (failed ∷ answers) = accepted answers

write_loop-finished :
    (answers : List SendAnswer) (bs : Bytes)
    → IsMoving answers
    → length bs ≤ accepted answers
    → (write_loop answers bs).stop ≡ finished
unfolding write_loop
write_loop-finished answers [] m enough = refl
write_loop-finished [] (b ∷ bs) m enough = absurd (omega arith)
write_loop-finished (interrupted ∷ answers) (b ∷ bs) m enough =
    write_loop-finished answers (b ∷ bs) m enough
write_loop-finished (failed ∷ answers) (b ∷ bs) m enough = absurd m
write_loop-finished (sent zero ∷ answers) (b ∷ bs) m enough = absurd m
write_loop-finished (sent (suc n) ∷ answers) (b ∷ bs) m enough =
    write_loop-finished answers (drop n bs) m (omega (arith, length-drop n bs))

-- The ends of a call of `write` for some bytes on some state.
pub data Wrote {C : Type 0} (priv : Option (TcpState C)) (bs : Bytes) : Written C → Type 0 where
  refused : Wrote priv bs (record { answer = some false; wire = []; priv = priv })
  done : Wrote priv bs (record { answer = some true; wire = bs; priv = priv })
  lost :
      {wire : Bytes} (left : Bytes) (state : TcpState C)
      → wire ++ left ≡ bs
      → priv ≡ some state
      → Wrote priv bs (record { answer = some false; wire = wire; priv = some (close state) })
  stuck :
      {wire : Bytes} (left : Bytes)
      → wire ++ left ≡ bs
      → Wrote priv bs (record { answer = some false; wire = wire; priv = priv })
  unanswered :
      {wire : Bytes} (left : Bytes)
      → wire ++ left ≡ bs
      → Wrote priv bs (record { answer = none; wire = wire; priv = priv })

append_nil : (xs : Bytes) → xs ++ [] ≡ xs
append_nil [] = refl
append_nil (x ∷ xs) = ap (◌∷◌ x) (append_nil xs)

all-Sent : (bs : Bytes) (p : Progress) → Sent bs p → p.stop ≡ finished → bs ≡ p.wire
all-Sent bs p s e = sym (s.split) ∙ ap (◌++◌ p.wire) (s.all_sent e) ∙ append_nil p.wire

module _ {C : Type 0} where
  written-Wrote :
      (state : TcpState C) (bs : Bytes) (p : Progress) (stop : WriteEnd)
      → p.stop ≡ stop
      → Sent bs p
      → Wrote (some state) bs (written state p stop)
  written-Wrote state bs p finished e s =
      subst
        (λ out.
          Wrote (some state) bs (record { answer = some true; wire = out; priv = some state }))
        (all-Sent bs p s e) done
  written-Wrote state bs p send_error e s = lost p.left state s.split refl
  written-Wrote state bs p sent_nothing e s = stuck p.left s.split
  written-Wrote state bs p waiting e s = unanswered p.left s.split

  -- However the socket answers, a write is refused with nothing on the wire; or it says success
  -- and the wire has exactly the bytes; or it fails, or has not returned yet, and the wire has a
  -- prefix of the bytes. A failure either leaves the state as it was or closes the socket.
  pub write-Wrote :
      (answers : List SendAnswer) (priv : Option (TcpState C)) (bs : Bytes)
      → Wrote priv bs (write answers priv (some bs))
  unfolding write
  write-Wrote answers priv [] = refused
  write-Wrote answers none (b ∷ bs) = refused
  write-Wrote answers (some state) (b ∷ bs) = elim (Bool-cases (is_some state.sock)) [
    | inl open_sock ↦ rw open_sock (
        written-Wrote state (b ∷ bs) (write_loop answers (b ∷ bs)) _ refl
          (write_loop-Sent answers (b ∷ bs)))
    | inr shut ↦ rw shut refused
  ]

  -- On a connected socket that takes at least one byte at each call, or is interrupted, and takes
  -- as many bytes as there are, a write of at least one byte returns success with all of them
  -- sent.
  pub write-delivers :
      (answers : List SendAnswer) (state : TcpState C) (bs : Bytes)
      → is_some state.sock ≡ true
      → bs ≢ []
      → IsMoving answers
      → length bs ≤ accepted answers
      → write answers (some state) (some bs)
        ≡ record { answer = some true; wire = bs; priv = some state }
  unfolding write
  write-delivers answers state [] o n m enough = absurd (n refl)
  write-delivers answers state (b ∷ bs) o n m enough =
      let e = write_loop-finished answers (b ∷ bs) m enough in
      rw (o, e)
        (ap (λ out. record { answer = some true; wire = out; priv = some state })
          (sym (all-Sent (b ∷ bs) _ (write_loop-Sent answers (b ∷ bs)) e)))
