-- ===== src/Storage/Growth.antt =====
-- The room that `bson_storage_append` makes: the doubled capacity, and the file of that size.
use bsondb.Common.{
  ℕ, zero, suc, ◌*◌, ◌%◌, ◌^◌, ◌≤◌, ◌<◌, ◌≡◌, refl, sym, ap, subst, ◌∙◌, ◌⊎◌, inl, inr, List, Bool,
  true, false, arith, ltb, ◌==◌, if◌then◌else◌, Bool-cases, length, length-append, ltb→lt, ltb→le,
}
use bsondb.Bson.Result.{Result, ok, err, io}
use bsondb.Bson.Wire.{size_mod}
use bsondb.Mmap.{Outcome, MmapFile, Os, mmap_resize}
use bsondb.Mmap.Exec.{continue}
use bsondb.Storage.Image.{Rec, Represents}
use bsondb.Storage.Header.{resize}
use bsondb.Storage.Format.{initial_capacity}
use bsondb.Storage.Resize.{Refuses, resize-Represents, size-Represents, longer}
use bsondb.Storage.Records.{make_room, double_until, page_round}

-- `room`, doubled that often.
abbrev doubles : ℕ → ℕ → ℕ
doubles zero room = room
doubles (suc rounds) room = doubles rounds (room * 2)

abbrev Reached : ℕ → ℕ → Result ℕ → Type 0
Reached cap needed r = (n : ℕ) × (r ≡ ok n) × (needed ≤ n) × (cap ≤ n) × (n < 2 ^ 61)

double_step :
    (rounds cap needed : ℕ)
    → double_until (suc rounds) cap needed
      ≡ (if ltb cap needed then double_until rounds (cap * 2 % size_mod) needed else ok cap)
unfolding double_until
double_step rounds cap needed = refl

no_round :
    (rounds room needed : ℕ)
    → room < 2 ^ 61
    → ltb room needed ≡ false
    → Reached room needed (double_until (suc rounds) room needed)
no_round rounds room needed hc f = (
  room,
  double_step rounds room needed
      ∙ ap (λ b. if b then double_until rounds (room * 2 % size_mod) needed else ok room) f,
  ltb→le room needed f,
  omega arith,
  hc,
)

one_round :
    (rounds room needed : ℕ)
    → room < 2 ^ 61
    → ltb room needed ≡ true
    → Reached (room * 2) needed (double_until rounds (room * 2) needed)
    → Reached room needed (double_until (suc rounds) room needed)
one_round rounds room needed hc t (n, e, reached, above, small) = (
  n,
  double_step rounds room needed
      ∙ ap (λ b. if b then double_until rounds (room * 2 % size_mod) needed else ok room) t
      ∙ ap (λ c. double_until rounds c needed) (omega (arith, hc))
      ∙ e,
  reached,
  omega (arith, above),
  small,
)

-- Enough rounds reach a capacity that is needed.
double_until_lem :
    (rounds room needed : ℕ)
    → needed ≤ doubles rounds room
    → room < 2 ^ 61
    → needed < 2 ^ 60
    → Reached room needed (double_until (suc rounds) room needed)
double_until_lem zero room needed enough hc hn = elim (Bool-cases (ltb room needed)) [
  | inr f ↦ no_round zero room needed hc f
  | inl t ↦ absurd (omega (arith, enough, ltb→lt room needed t))
]
double_until_lem (suc rounds) room needed enough hc hn = elim (Bool-cases (ltb room needed)) [
  | inr f ↦ no_round (suc rounds) room needed hc f
  | inl t ↦ one_round (suc rounds) room needed hc t (
      double_until_lem rounds (room * 2) needed (omega (arith, enough))
        (omega (arith, ltb→lt room needed t, hn)) hn)
]

-- What `make_room` leaves: the same records in a file with room, or the failure of a system call.
module _ {file : MmapFile} {recs : List Rec} (h : Represents file recs) where
  -- The file is too short, and does not grow to a size that is enough.
  abbrev pub Stuck : Os → ℕ → Type 0
  Stuck os needed =
      (length file.bytes < needed) × ((n : ℕ) × (needed ≤ n) × (n < 2 ^ 62) × Refuses h os n)

  abbrev pub Room : Os → ℕ → Outcome (Unit {0}) → Type 0
  Room os needed r =
      ((file' : MmapFile) × (r ≡ (ok tt, file'))
        × Represents file' recs
        × (needed ≤ length file'.bytes))
      ⊎ ((after : MmapFile) × (r ≡ (err io, after)) × Stuck os needed)

  module _ (os : Os) (needed : ℕ) (small : needed < 2 ^ 60) where
    grow : ℕ → Bool → Outcome (Unit {0})
    grow size empty =
        continue (double_until 65 (if empty then initial_capacity else size) needed)
          (λ c. resize os (page_round c)) file

    not_empty : (k : ℕ) → 1 ≤ k → (k == 0) ≡ false
    not_empty k h = ground arith

    room_step :
        make_room os needed file
        ≡ (if ltb (length file.bytes) needed then grow (length file.bytes) false else (ok tt, file))
    unfolding make_room grow
    room_step =
        ap (λ s. if ltb s needed then grow s (s == 0) else (ok tt, file)) (size-Represents h)
        ∙ ap
            (λ b.
              if ltb (length file.bytes) needed then grow (length file.bytes) b else (ok tt, file))
            (not_empty (length file.bytes) (omega (arith, h.header)))

    fits :
        (c : ℕ)
        → needed ≤ c
        → c < 2 ^ 61
        → length file.bytes < needed
        → Room os needed (mmap_resize os file (page_round c))
    fits c reached below less =
        elim (resize-Represents h os (page_round c) (omega (arith, reached, below, less))
          (omega (arith, below))) [
            | inl (zeros, e, grown, len) ↦ inl (
              longer file zeros,
              e,
              grown,
              omega (arith, len, length-append file.bytes zeros, reached, below),
            )
            | inr (after, e, refused) ↦ inr (
              after,
              e,
              (less, (page_round c, omega (arith, reached, below), omega (arith, below), refused)),
            )
          ]

    grown : length file.bytes < needed → Room os needed (grow (length file.bytes) false)
    unfolding grow
    grown less =
        let (c, e, reached, above, below) =
          double_until_lem 64 (length file.bytes) needed (omega (arith, h.header, small))
            (omega (arith, less, small)) small in
        subst (Room os needed) (sym (ap (λ r. continue r (λ c. resize os (page_round c)) file) e))
          (fits c reached below less)

    pub make_room-Represents : Room os needed (make_room os needed file)
    make_room-Represents =
        subst (Room os needed) (sym room_step) (elim (Bool-cases (ltb (length file.bytes) needed)) [
          | inl t ↦
              subst (Room os needed)
                (sym (ap (λ b. if b then grow (length file.bytes) false else (ok tt, file)) t))
                (grown (ltb→lt (length file.bytes) needed t))
          | inr f ↦ inl (
            file,
            ap (λ b. if b then grow (length file.bytes) false else (ok tt, file)) f,
            h,
            ltb→le (length file.bytes) needed f,
          )
        ])
