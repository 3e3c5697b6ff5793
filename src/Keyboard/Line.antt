-- ===== src/Keyboard/Line.antt =====
-- The line that is read from the keyboard.
use learning_os_project.Common.{
  ℕ, ◌-◌, ◌≤◌, ◌<◌, ◌≡◌, refl, ap, inl, inr, Bool, true, false, not, ◌||◌, some, List, [], ◌∷◌,
  ◌++◌, ltb, ◌==◌, length, arith, Bool-cases, some-inj, subst, drop, Option-map-eq-some,
}
use learning_os_project.Keyboard.{read_chars, erase_echo, keyboard_readline}
use learning_os_project.Kprintf.{backwards}

-- Characters that end or edit a line.
abbrev pub is_plain : ℕ → Bool
is_plain c = not ((c == 13) || (c == 10) || (c == 8) || (c == 127))

abbrev pub AllPlain : List ℕ → Type 0
AllPlain [] = Unit {0}
AllPlain (c ∷ s) = (is_plain c ≡ true) × AllPlain s

-- A line that has room for its 0 and holds no character that edits.
abbrev pub IsLine : ℕ → List ℕ → Type 0
IsLine max s = (length s ≤ max - 1) × AllPlain s

drop-IsLine : (max : ℕ) (out : List ℕ) → IsLine max out → IsLine max (drop 1 out)
drop-IsLine max [] v = v
drop-IsLine max (c ∷ out) v = (omega (arith, v.0), v.1.1)

read_chars-IsLine :
    (typed : List ℕ) (max : ℕ) (out : List ℕ) {line echoed : List ℕ}
    → IsLine max out
    → read_chars max out typed ≡ some (line, echoed)
    → IsLine max line
unfolding read_chars
read_chars-IsLine [] max out {line} v e = elim (Bool-cases (ltb (length out) (max - 1))) [
  | inl l ↦ absurd (let x = rw (l, read_chars) at e in cc)
  | inr l ↦ subst (IsLine max) (ap (λ r. r.0) (some-inj (rw (l, read_chars) at e))) v
]
read_chars-IsLine (c ∷ typed) max out {line} {echoed} v e =
    elim (Bool-cases (ltb (length out) (max - 1))) [
      | inr l ↦ subst (IsLine max) (ap (λ r. r.0) (some-inj (rw (l, read_chars) at e))) v
      | inl l ↦ elim (Bool-cases ((c == 13) || (c == 10))) [
        | inl ends ↦ subst (IsLine max) (ap (λ r. r.0) (some-inj (rw (l, ends, read_chars) at e))) v
        | inr going ↦ elim (Bool-cases ((c == 8) || (c == 127))) [
          | inl back ↦
              let (r, found, eq) =
                Option-map-eq-some _ (read_chars max (drop 1 out) typed)
                  (rw (l, going, back, read_chars) at e) in
              subst (IsLine max) (ap (λ r. r.0) eq) (
                read_chars-IsLine typed max (drop 1 out) {line = r.0} {echoed = r.1}
                  (drop-IsLine max out v) found)
          | inr plain ↦
              let (r, found, eq) =
                Option-map-eq-some _ (read_chars max (c ∷ out) typed)
                  (rw (l, going, plain, read_chars) at e) in
              subst (IsLine max) (ap (λ r. r.0) eq) (
                read_chars-IsLine typed max (c ∷ out) {line = r.0} {echoed = r.1}
                  (ground arith, (ground arith, v.1)) found)
        ]
      ]
    ]

-- A newline ends the wait.
read_chars-ends :
    (typed more : List ℕ) (max : ℕ) (out : List ℕ)
    → (r : List ℕ × List ℕ) × (read_chars max out (typed ++ 10 ∷ more) ≡ some r)
unfolding read_chars
read_chars-ends [] more max out = elim (Bool-cases (ltb (length out) (max - 1))) [
  | inl l ↦ ((out, 10 ∷ []), rw l refl)
  | inr l ↦ ((out, []), rw l refl)
]
read_chars-ends (c ∷ typed) more max out = elim (Bool-cases (ltb (length out) (max - 1))) [
  | inr l ↦ ((out, []), rw l refl)
  | inl l ↦ elim (Bool-cases ((c == 13) || (c == 10))) [
    | inl ends ↦ ((out, 10 ∷ []), rw (l, ends) refl)
    | inr going ↦ elim (Bool-cases ((c == 8) || (c == 127))) [
      | inl back ↦
          let (r, e) = read_chars-ends typed more max (drop 1 out) in
          ((r.0, erase_echo out ++ r.1), rw (l, going, back, e) refl)
      | inr plain ↦
          let (r, e) = read_chars-ends typed more max (c ∷ out) in
          ((r.0, c ∷ r.1), rw (l, going, plain, e) refl)
    ]
  ]
]

-- Where a newline comes in the end and there is room for at least the 0, `keyboard_readline`
-- returns; what it stores is a line without line ends, backspaces and deletes, followed by a 0,
-- all within `max` bytes, and it returns the length of the line.
pub keyboard_readline-line :
    (max : ℕ) (typed more : List ℕ)
    → 0 < max
    → (line echoed : List ℕ) × (keyboard_readline max (typed ++ 10 ∷ more)
        ≡ some (length line, backwards line ++ 0 ∷ [], echoed))
      × (length line < max)
      × AllPlain line
unfolding keyboard_readline
keyboard_readline-line max typed more h =
    let (r, e) = read_chars-ends typed more max [] in
    let (short, plain) =
      read_chars-IsLine (typed ++ 10 ∷ more) max [] {line = r.0} {echoed = r.1} (omega arith, tt)
        e in
    let some_room : (max == 0) ≡ false = ground arith in
    (r.0, r.1, rw (some_room, e) refl, omega (arith, short), plain)
