-- ===== src/Monitor/Screen.antt =====
-- The cursor stays on the screen.
use learning_os_project.Common.{
  ℕ, zero, suc, ◌+◌, ◌-◌, ◌*◌, ◌%◌, ◌^◌, ◌≤◌, ◌<◌, ◌≡◌, refl, ◌∙◌, ◌&&◌, inl, inr, ltb, leb, ◌==◌,
  take, drop, replicate, length, length-set, length-take, length-drop, length-replicate,
  length-append, arith, Bool-cases,
}
use learning_os_project.Monitor.{
  Monitor, update_cursor, scroll, put_cell, put_spaces, newline, next_tab, step_back, put_char,
  to_serial, wrap_line, monitor_put, blank,
}

-- The video memory is the screen, and the cursor is on it.
pub record IsValid (m : Monitor) : Type 0 where
  pub cells : length m.video_memory ≡ 2000
  pub in_row : m.cursor_x < 80
  pub in_column : m.cursor_y < 25

-- The cursor may be one place past the end of its row, or its row one past the last.
record IsAlmost (m : Monitor) : Type 0 where
  cells : length m.video_memory ≡ 2000
  in_row : m.cursor_x ≤ 80
  in_column : m.cursor_y ≤ 25
  not_both : 80 ≤ m.cursor_x → m.cursor_y < 25

put_spaces_lem :
    (n : ℕ) (m : Monitor)
    → m.cursor_x + n ≤ 80
    → (length (put_spaces n m).video_memory ≡ length m.video_memory)
      × ((put_spaces n m).cursor_x ≡ m.cursor_x + n)
      × ((put_spaces n m).cursor_y ≡ m.cursor_y)
unfolding put_spaces put_cell
put_spaces_lem zero m h = (refl, omega arith, refl)
put_spaces_lem (suc n) m h =
    let (l, x, y) =
      put_spaces_lem n (record (put_cell m 32) { cursor_x = (m.cursor_x + 1) % 2 ^ 8 })
        (omega arith) in
    (l ∙ length-set m.video_memory _ _, omega (arith, x), y)

step_back-IsValid : {m : Monitor} → IsValid m → IsValid (step_back m)
unfolding step_back
step_back-IsValid {m} v = elim (Bool-cases (ltb 0 m.cursor_x)) [
  | inl e ↦
      simp e (record { cells = v.cells; in_row = omega (arith, v.in_row); in_column = v.in_column })
  | inr e ↦ elim (Bool-cases (ltb 0 m.cursor_y)) [
    | inl f ↦
        simp (e, f)
          (record { cells = v.cells; in_row = omega arith; in_column = omega (arith, v.in_column) })
    | inr f ↦ simp (e, f) v
  ]
]

put_char-IsAlmost : {m : Monitor} (c : ℕ) → IsValid m → IsAlmost (put_char m c)
unfolding put_char newline put_cell
put_char-IsAlmost {m} c v = elim (Bool-cases (c == 10)) [
  | inl e ↦ rw e (omega (arith, v.cells, v.in_column))
  | inr e ↦ elim (Bool-cases (c == 9)) [
    | inl f ↦
        let (l, x, y) =
          put_spaces_lem (next_tab m.cursor_x - m.cursor_x) m (omega (arith, v.in_row)) in
        rw (e, f) (omega (arith, l, x, y, v.cells, v.in_row, v.in_column))
    | inr f ↦ elim (Bool-cases (c == 8)) [
      | inl g ↦
          let w = step_back-IsValid v in
          rw (e, f, g)
            (record {
              cells = length-set (step_back m).video_memory _ _ ∙ w.cells;
              in_row = omega (arith, w.in_row);
              in_column = omega (arith, w.in_column);
              not_both = λ k. w.in_column;
            })
      | inr g ↦ elim (Bool-cases (leb 32 c && ltb c 128)) [
        | inl p ↦
            rw (e, f, g, p)
              (record {
                cells = length-set m.video_memory _ _ ∙ v.cells;
                in_row = omega (arith, v.in_row);
                in_column = omega (arith, v.in_column);
                not_both = λ k. v.in_column;
              })
        | inr p ↦ rw (e, f, g, p) (omega (arith, v.cells, v.in_row, v.in_column))
      ]
    ]
  ]
]

to_serial-IsValid : {m : Monitor} (c : ℕ) → IsValid m → IsValid (to_serial m c)
unfolding to_serial
to_serial-IsValid {m} c v = elim (Bool-cases m.serial_enabled) [
  | inl e ↦ simp e (record { cells = v.cells; in_row = v.in_row; in_column = v.in_column })
  | inr e ↦ simp e v
]

wrap_line-in_row :
    {m : Monitor}
    → IsAlmost m
    → (length (wrap_line m).video_memory ≡ 2000)
      × ((wrap_line m).cursor_x < 80)
      × ((wrap_line m).cursor_y ≤ 25)
unfolding wrap_line newline
wrap_line-in_row {m} v = elim (Bool-cases (leb 80 m.cursor_x)) [
  | inl e ↦ rw e (v.cells, omega arith, ground (arith, v.not_both))
  | inr e ↦ rw e (v.cells, ground (arith, v.in_row), v.in_column)
]

scroll-IsValid :
    (m : Monitor)
    → length m.video_memory ≡ 2000
    → m.cursor_x < 80
    → m.cursor_y ≤ 25
    → IsValid (scroll m)
unfolding scroll
scroll-IsValid m l x y = elim (Bool-cases (leb 25 m.cursor_y)) [
  | inl e ↦ rw e (record {
    cells = omega (
      arith,
      l,
      length-append (take 1920 (drop 80 m.video_memory)) (replicate 80 blank),
      length-take 1920 (drop 80 m.video_memory),
      length-drop 80 m.video_memory,
      length-replicate 80 blank,
    );
    in_row = x;
    in_column = omega arith;
  })
  | inr e ↦ rw e (record { cells = l; in_row = x; in_column = ground (arith, y) })
]

-- Whatever character is put, the video memory keeps its size, the cursor stays on the screen,
-- and the cursor's ports are told its place.
pub monitor_put-IsValid :
    {m : Monitor} (c : ℕ)
    → IsValid m
    → IsValid (monitor_put m c)
      × ((monitor_put m c).hardware_cursor
          ≡ (monitor_put m c).cursor_y * 80 + (monitor_put m c).cursor_x)
unfolding monitor_put update_cursor
monitor_put-IsValid {m} c v =
    let (l, x, y) = wrap_line-in_row (put_char-IsAlmost c (to_serial-IsValid c v)) in
    let w = scroll-IsValid (wrap_line (put_char (to_serial m c) c)) l x y in
    (
      record { cells = w.cells; in_row = w.in_row; in_column = w.in_column },
      omega (arith, w.in_row, w.in_column),
    )
