-- ===== src/Transport/Table.antt =====
-- The table of transport.c as a map from types to implementations.
use mlink_device.Prelude.{
  ◌≤◌, ◌≡◌, ◌≢◌, refl, inl, inr, Bool, true, false, none, some, List, [], ◌∷◌, ◌++◌, ◌==◌, leb,
  if◌then◌else◌, arith, length, length-append, Option-cases, Bool-cases,
}
use mlink_device.Transport.{
  TransportType, code, max_registrations, Entry, find_ops, replace_ops, register, unregister,
}

module _ {Ops : Type 0} where
  abbrev pub AreDistinct : List (Entry Ops) → Type 0
  AreDistinct [] = Unit
  AreDistinct (x ∷ xs) = (find_ops xs x.type ≡ none) × AreDistinct xs

  -- At most four entries, of different types.
  pub record IsTable (table : List (Entry Ops)) : Type 0 where
    pub bounded : length table ≤ max_registrations
    pub distinct : AreDistinct table

  find_ops-replace_ops :
      (table : List (Entry Ops)) (type other : TransportType) (ops : Ops)
      → find_ops table type ≢ none
      → find_ops (replace_ops table type ops) other
        ≡ (if code other == code type then some ops else find_ops table other)
  unfolding find_ops replace_ops
  find_ops-replace_ops [] type other ops h = absurd (h refl)
  find_ops-replace_ops (x ∷ xs) type other ops h =
      ground (arith, find_ops-replace_ops xs type other ops)

  length-replace_ops :
      (table : List (Entry Ops)) (type : TransportType) (ops : Ops)
      → length (replace_ops table type ops) ≡ length table
  unfolding replace_ops
  length-replace_ops [] type ops = refl
  length-replace_ops (x ∷ xs) type ops = ground (arith, length-replace_ops xs type ops)

  find_ops-append :
      (table : List (Entry Ops)) (x : Entry Ops) (other : TransportType)
      → find_ops table x.type ≡ none
      → find_ops (table ++ x ∷ []) other
        ≡ (if code other == code x.type then some x.ops else find_ops table other)
  unfolding find_ops
  find_ops-append [] x other h = ground arith
  find_ops-append (y ∷ ys) x other h = ground (arith, find_ops-append ys x other)

  find_ops-replace_none :
      (table : List (Entry Ops)) (type other : TransportType) (ops : Ops)
      → find_ops table other ≡ none
      → find_ops (replace_ops table type ops) other ≡ none
  unfolding find_ops replace_ops
  find_ops-replace_none [] type other ops h = refl
  find_ops-replace_none (x ∷ xs) type other ops h =
      ground (arith, find_ops-replace_none xs type other ops)

  find_ops-code :
      (table : List (Entry Ops)) (type other : TransportType)
      → (code type == code other) ≡ true
      → find_ops table type ≡ find_ops table other
  unfolding find_ops
  find_ops-code [] type other h = refl
  find_ops-code (x ∷ xs) type other h = ground (arith, find_ops-code xs type other h)

  AreDistinct-replace_ops :
      (table : List (Entry Ops)) (type : TransportType) (ops : Ops)
      → AreDistinct table
      → AreDistinct (replace_ops table type ops)
  unfolding replace_ops
  AreDistinct-replace_ops [] type ops d = tt
  AreDistinct-replace_ops (x ∷ xs) type ops d =
      elim (code x.type == code type)
        as (λ b.
          AreDistinct (if b then record x { ops = ops } ∷ xs else x ∷ replace_ops xs type ops)) [
            | true ↦ d
            | false ↦ (
              find_ops-replace_none xs type x.type ops d.0,
              AreDistinct-replace_ops xs type ops d.1,
            )
          ]

  AreDistinct-append :
      (table : List (Entry Ops)) (x : Entry Ops)
      → AreDistinct table
      → find_ops table x.type ≡ none
      → AreDistinct (table ++ x ∷ [])
  unfolding find_ops
  AreDistinct-append [] x d h = (refl, tt)
  AreDistinct-append (y ∷ ys) x d h =
      (ground (arith, find_ops-append ys x y.type), AreDistinct-append ys x d.1 (ground arith))

  find_ops-unregister :
      (table : List (Entry Ops)) (type other : TransportType)
      → AreDistinct table
      → find_ops ((unregister table type).1) other
        ≡ (if code other == code type then none else find_ops table other)
  unfolding find_ops unregister
  find_ops-unregister [] type other d = ground arith
  find_ops-unregister (x ∷ xs) type other d =
      ground (arith, find_ops-unregister xs type other d.1, find_ops-code xs x.type other, d.0)

  length-unregister :
      (table : List (Entry Ops)) (type : TransportType)
      → length ((unregister table type).1) ≤ length table
  unfolding unregister
  length-unregister [] type = ground arith
  length-unregister (x ∷ xs) type = ground (arith, length-unregister xs type)

  find_ops-unregister-none :
      (table : List (Entry Ops)) (type other : TransportType)
      → find_ops table other ≡ none
      → find_ops ((unregister table type).1) other ≡ none
  unfolding find_ops unregister
  find_ops-unregister-none [] type other h = refl
  find_ops-unregister-none (x ∷ xs) type other h =
      ground (arith, find_ops-unregister-none xs type other)

  -- The step of `unregister`, by what the test says.
  abbrev behind : Entry Ops → List (Entry Ops) → TransportType → Bool → Bool × List (Entry Ops)
  behind x xs type b =
      if b then (true, xs) else ((unregister xs type).0, x ∷ (unregister xs type).1)

  AreDistinct-unregister :
      (table : List (Entry Ops)) (type : TransportType)
      → AreDistinct table
      → AreDistinct ((unregister table type).1)
  unfolding unregister
  AreDistinct-unregister [] type d = tt
  AreDistinct-unregister (x ∷ xs) type d =
      elim (code x.type == code type) as (λ b. AreDistinct (behind x xs type b).1) [
        | true ↦ d.1
        | false ↦ (find_ops-unregister-none xs type x.type d.0, AreDistinct-unregister xs type d.1)
      ]

  -- What a registration does: `register` answers with success and the table `table'`.
  pub record Stored (table table' : List (Entry Ops)) (type : TransportType) (ops : Ops)
      : Type 0 where
    pub lookup :
        (other : TransportType)
        → find_ops table' other
          ≡ (if code other == code type then some ops else find_ops table other)
    pub valid : IsTable table'

  pub data Registration (table : List (Entry Ops)) (type : TransportType) (ops : Ops)
      : Bool × List (Entry Ops) → Type 0 where
    stored :
        {table' : List (Entry Ops)}
        → Stored table table' type ops
        → Registration table type ops (true, table')
    full :
        length table ≡ max_registrations
        → find_ops table type ≡ none
        → Registration table type ops (false, table)

  appended_cases :
      (table : List (Entry Ops)) (type : TransportType) (ops : Ops)
      → IsTable table
      → find_ops table type ≡ none
      → Registration table type ops (
          if leb max_registrations (length table)
          then (false, table)
          else (true, table ++ record { type = type; ops = ops } ∷ []))
  appended_cases table type ops v missing =
      elim (Bool-cases (leb max_registrations (length table))) [
        | inl at_end ↦ rw at_end (full (ground (arith, v.bounded)) missing)
        | inr room ↦ rw room (
            stored (record {
              lookup =
                  λ other. find_ops-append table (record { type = type; ops = ops }) other missing;
              valid = record {
                bounded =
                    ground (arith, length-append table (record { type = type; ops = ops } ∷ []));
                distinct =
                    AreDistinct-append table (record { type = type; ops = ops }) v.distinct missing;
              };
            }))
      ]

  -- In a table of at most four entries of different types, a registration either stores the
  -- operations, so that this type finds them and every other type what it found before, and keeps
  -- the table so; or it changes nothing, and the table has four entries, none of this type.
  pub register_cases :
      (table : List (Entry Ops)) (type : TransportType) (ops : Ops)
      → IsTable table
      → Registration table type ops (register table type (some ops))
  unfolding register
  register_cases table type ops v = elim (Option-cases (find_ops table type)) [
    | inl missing ↦ rw (missing, register) (appended_cases table type ops v missing)
    | inr (old, found) ↦
        rw (found, register)
          (stored (record {
            lookup = λ other. find_ops-replace_ops table type other ops (λ n. ground arith);
            valid = record {
              bounded = ground (arith, length-replace_ops table type ops, v.bounded);
              distinct = AreDistinct-replace_ops table type ops v.distinct;
            };
          }))
  ]

  pub record Removed (table table' : List (Entry Ops)) (type : TransportType) : Type 0 where
    pub lookup :
        (other : TransportType)
        → find_ops table' other ≡ (if code other == code type then none else find_ops table other)
    pub valid : IsTable table'

  -- After a removal from such a table its type finds nothing, every other type finds what it
  -- found before, and the table still has at most four entries of different types.
  pub unregister-Removed :
      (table : List (Entry Ops)) (type : TransportType)
      → IsTable table
      → Removed table ((unregister table type).1) type
  unregister-Removed table type v = record {
    lookup = λ other. find_ops-unregister table type other v.distinct;
    valid = record {
      bounded = ground (arith, length-unregister table type, v.bounded);
      distinct = AreDistinct-unregister table type v.distinct;
    };
  }

  -- On a table of at most four entries of different types: what a registration and a removal do.
  pub record Managed (table : List (Entry Ops)) (type : TransportType) (ops : Ops) : Type 0 where
    pub registration : Registration table type ops (register table type (some ops))
    pub removal : Removed table ((unregister table type).1) type

  -- In a table of at most four entries of different types, a registration either stores the
  -- operations, so that this type finds them and every other type what it found before, and keeps
  -- the table so; or it changes nothing, and the table has four entries, none of this type. After
  -- a removal its type finds nothing, every other type finds what it found before, and the table
  -- is still such a one.
  pub table_cases :
      (table : List (Entry Ops)) (type : TransportType) (ops : Ops)
      → IsTable table
      → Managed table type ops
  table_cases table type ops v = record {
    registration = register_cases table type ops v;
    removal = unregister-Removed table type v;
  }
