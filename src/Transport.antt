-- ===== src/Transport.antt =====
-- core/transport/transport.c: the table of transport types, and transports made from it.
-- `Ops` stands for `struct hwio_ops`, and `P` for what its functions keep behind `hwio.priv`.
pub mod Table
mod Tests
pub mod Tcp
pub mod Unix
use mlink_device.Prelude.{
  ℕ, Bool, true, false, not, Option, none, some, List, [], ◌∷◌, ◌++◌, ◌==◌, leb, if◌then◌else◌,
  length,
}
use mlink_device.Memory.{M, pure, ◌>>=◌, ◌>>◌, malloc}
use mlink_device.Memory as Memory

pub data TransportType : Type 0 where
  unix tcp mqtt http ws uart spi : TransportType

-- The number of a constant of the enum.
unfoldable pub code : TransportType → ℕ
code unix = 0
code tcp = 1
code mqtt = 2
code http = 3
code ws = 4
code uart = 5
code spi = 6

abbrev pub max_registrations : ℕ
max_registrations = 4

pub record Entry (Ops : Type 0) : Type 0 where
  pub type : TransportType
  pub ops : Ops

module _ {Ops : Type 0} where
  -- The search that `transport_register` and `transport_create` make.
  unfoldable pub find_ops : List (Entry Ops) → TransportType → Option Ops
  find_ops [] type = none
  find_ops (x ∷ xs) type = if code x.type == code type then some x.ops else find_ops xs type

  -- The write to the first entry of the type.
  unfoldable pub replace_ops : List (Entry Ops) → TransportType → Ops → List (Entry Ops)
  replace_ops [] type ops = []
  replace_ops (x ∷ xs) type ops =
      if code x.type == code type then record x { ops = ops } ∷ xs else x ∷ replace_ops xs type ops

  unfoldable pub register : List (Entry Ops) → TransportType → Option Ops → Bool × List (Entry Ops)
  register table type none = (false, table)
  register table type (some ops) = elim (find_ops table type) [
    | some old ↦ (true, replace_ops table type ops)
    | none ↦
        if leb max_registrations (length table)
        then (false, table)
        else (true, table ++ record { type = type; ops = ops } ∷ [])
  ]

  -- The entries behind the removed one move up.
  unfoldable pub unregister : List (Entry Ops) → TransportType → Bool × List (Entry Ops)
  unregister [] type = (false, [])
  unregister (x ∷ xs) type =
      if code x.type == code type
      then (true, xs)
      else ((unregister xs type).0, x ∷ (unregister xs type).1)

pub record Transport (Ops P : Type 0) : Type 0 where
  pub ops : Ops
  pub priv : Option P

-- `init` is the function of that name in the ops, run on a zeroed `hwio`.
module _ {Ops P : Type 0} (init : Ops → Option (M (Bool × Option P))) where
  abbrev pub started : Ops → Bool × Option P → M (Option (Transport Ops P))
  started ops (true, priv) = pure (some (record { ops = ops; priv = priv }))
  started ops (false, priv) = Memory.free (some tt) >> pure none

  unfoldable pub create : List (Entry Ops) → TransportType → M (Option (Transport Ops P))
  create table type = malloc >>= λ granted.
      if not granted then pure none else (elim (find_ops table type) [
        | none ↦ Memory.free (some tt) >> pure none
        | some ops ↦ elim (init ops) [
          | none ↦ pure (some (record { ops = ops; priv = none }))
          | some run ↦ run >>= started ops
        ]
      ])

-- The operations that a transport passes on; a NULL one is none. What they answer when there is
-- none to call is -1, here `refused`.
module _ {Ops P : Type 0} where
  unfoldable pub destroy :
      (Ops → Option (Option P → M (Bool × Option P))) → Option (Transport Ops P) → M (Unit {0})
  destroy deinit none = pure tt
  destroy deinit (some t) = elim (deinit t.ops) [
    | none ↦ Memory.free (some t)
    | some run ↦ run t.priv >>= λ r. Memory.free (some t)
  ]

  unfoldable pub send :
      {W : Type 0} → (Ops → Option (Option P → W)) → W → Option (Transport Ops P) → W
  send write refused none = refused
  send write refused (some t) = elim (write t.ops) [ none ↦ refused | some run ↦ run t.priv ]

  unfoldable pub register_callback :
      {C : Type 0}
      → (Ops → Option (Option P → C → M (Bool × Option P)))
      → Option (Transport Ops P)
      → C
      → M (Bool × Option (Transport Ops P))
  register_callback callback none cb = pure (false, none)
  register_callback callback (some t) cb = elim (callback t.ops) [
    | none ↦ pure (false, some t)
    | some run ↦ run t.priv cb >>= λ r. pure (r.0, some (record t { priv = r.1 }))
  ]
