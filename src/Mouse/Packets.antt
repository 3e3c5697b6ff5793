-- ===== src/Mouse/Packets.antt =====
-- Three bytes make a packet.
use learning_os_project.Common.{
  ℕ, ◌%◌, ◌≡◌, ◌<◌, refl, sym, ap, ◌∙◌, true, false, ◌==◌, List, [], ◌∷◌, ◌++◌, length, set, arith,
}
use learning_os_project.Common.Int.{signed8}
use learning_os_project.BoundedQueue
use learning_os_project.Common.Bits.{bit}
use learning_os_project.Input.{Input, InputEvent, input_push_mouse, mouse_event}
use learning_os_project.Input.Refine.{IsValid, waiting, push-enqueue}
use learning_os_project.Mouse.{Mouse, mouse_handler, finish}

-- The three bytes `a`, `b` and `c` in turn.
abbrev pub after_three : Mouse → ℕ → ℕ → ℕ → ℕ → Mouse
after_three m status a b c =
    mouse_handler (mouse_handler (mouse_handler m status a) status b) status c

first_byte :
    (m : Mouse) (status a : ℕ)
    → m.mouse_cycle ≡ 0
    → bit status 0 ≡ 1
    → bit a 3 ≡ 1
    → mouse_handler m status a ≡ record m { mouse_bytes = set m.mouse_bytes 0 a; mouse_cycle = 1 }
unfolding mouse_handler
first_byte m status a start ready first = simp (start, ready, first)

second_byte :
    (m : Mouse) (status b : ℕ)
    → m.mouse_cycle ≡ 1
    → bit status 0 ≡ 1
    → mouse_handler m status b ≡ record m { mouse_bytes = set m.mouse_bytes 1 b; mouse_cycle = 2 }
unfolding mouse_handler
second_byte m status b second ready = simp (second, ready)

third_byte :
    (m : Mouse) (status c : ℕ)
    → m.mouse_cycle ≡ 2
    → bit status 0 ≡ 1
    → mouse_handler m status c ≡ finish (set m.mouse_bytes 2 c) m
unfolding mouse_handler
third_byte m status c third ready = simp (third, ready)

three_bytes :
    (bytes : List ℕ) (a b c : ℕ)
    → length bytes ≡ 3
    → set (set (set bytes 0 a) 1 b) 2 c ≡ a ∷ b ∷ c ∷ []
three_bytes [] a b c h = absurd (omega arith)
three_bytes (x ∷ []) a b c h = absurd (omega arith)
three_bytes (x ∷ y ∷ []) a b c h = absurd (omega arith)
three_bytes (x ∷ y ∷ z ∷ []) a b c h = refl
three_bytes (x ∷ y ∷ z ∷ w ∷ ws) a b c h = absurd (omega arith)

packet_state :
    (m : Mouse) (status a b c : ℕ)
    → m.mouse_cycle ≡ 0
    → length m.mouse_bytes ≡ 3
    → bit status 0 ≡ 1
    → bit a 3 ≡ 1
    → ((after_three m status a b c).events ≡ input_push_mouse m.events b c (a % 8))
      × ((after_three m status a b c).mouse_cycle ≡ 0)
      × ((after_three m status a b c).mouse_bytes ≡ a ∷ b ∷ c ∷ [])
unfolding finish
packet_state m status a b c start three ready first =
    let one = record m { mouse_bytes = set m.mouse_bytes 0 a; mouse_cycle = 1 } in
    let two = record one { mouse_bytes = set one.mouse_bytes 1 b; mouse_cycle = 2 } in
    rw
      (
        first_byte m status a start ready first,
        second_byte one status b refl ready,
        third_byte two status c refl ready,
        three_bytes m.mouse_bytes a b c three,
      )
      (refl, refl, refl)

-- The event of a packet: the movement as signed bytes, and the three buttons.
abbrev pub packet_event : ℕ → ℕ → ℕ → InputEvent
packet_event a b c = record { kind = 2; flags = a % 8; a = signed8 b; b = signed8 c }

push_packet :
    {s : Input} (a b c : ℕ)
    → IsValid s
    → waiting (input_push_mouse s b c (a % 8))
      ≡ (BoundedQueue.enqueue 63 (waiting s) (packet_event a b c)).1
unfolding input_push_mouse
push_packet a b c v = sym (push-enqueue v (mouse_event b c (a % 8)))

-- From the start of a packet, with an event queue whose indices are in range and data ready each
-- time, three bytes of which the first has bit 3 set leave the handler at the start of a packet
-- again, with these bytes stored. If fewer than 63 events wait, exactly one has been put behind
-- them: a mouse event with the second and third byte as its signed movement and the low three
-- bits of the first as its buttons. If 63 events wait, the packet is dropped and the same events
-- wait.
pub mouse_handler-packet :
    (m : Mouse) (status a b c : ℕ)
    → m.mouse_cycle ≡ 0
    → length m.mouse_bytes ≡ 3
    → IsValid m.events
    → bit status 0 ≡ 1
    → bit a 3 ≡ 1
    → ((after_three m status a b c).mouse_cycle ≡ 0)
      × ((after_three m status a b c).mouse_bytes ≡ a ∷ b ∷ c ∷ [])
      × (length (waiting m.events) < 63
          → waiting (after_three m status a b c).events
            ≡ waiting m.events ++ packet_event a b c ∷ [])
      × (length (waiting m.events) ≡ 63
          → waiting (after_three m status a b c).events ≡ waiting m.events)
unfolding BoundedQueue.enqueue
mouse_handler-packet m status a b c start three v ready first =
    let (events, cycle, bytes) = packet_state m status a b c start three ready first in
    let put = ap waiting events ∙ push_packet a b c v in
    (
      cycle,
      bytes,
      λ room. put ∙ (let p : (length (waiting m.events) == 63) ≡ false = ground arith in rw p refl),
      λ full. put ∙ (let p : (length (waiting m.events) == 63) ≡ true = ground arith in rw p refl),
    )
