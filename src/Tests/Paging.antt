-- ===== src/Tests/Paging.antt =====
-- The frame allocator over three frames, the first in use.
use learning_os_project.Common.{
  ℕ, zero, suc, ◌+◌, ◌*◌, ◌/◌, ◌≡◌, ◌≤◌, ◌<◌, refl, ◌⊎◌, [], ◌∷◌, arith, true, get_or, ltb, ◌||◌,
  ◌==◌, ◌^◌,
}
use learning_os_project.Common.Table.{holds_below, holds_below-at}
use learning_os_project.Common.Bits.{bit}
use learning_os_project.Frames.{
  Frames, test_frame, frame_alloc, frame_free, frame_alloc_contiguous, frame_largest_free_run,
  set_frame, set_run, free_run, busy_at,
}
use learning_os_project.Frames.Bitmap.{IsValid, Changed, count_below}
use learning_os_project.Frames.Alloc.{frame_alloc_lem, frame_free_lem}
use learning_os_project.Frames.Runs.{FreeRun, RunTaken, frame_alloc_contiguous_lem}
use learning_os_project.Frames.Longest.{IsLongest, frame_largest_free_run_lem}

abbrev frames : Frames
frames = record {
  ready = true;
  bitmap = 4294967289 ∷ [];
  total_frames = 3;
  used_frames = 1;
  placement_addr = 1048576;
}

marked : (f : ℕ) → f < 32 → ltb f 3 || (test_frame frames.bitmap f == 1) ≡ true
unfolding holds_below test_frame bit
marked f h = holds_below-at (λ g. ltb g 3 || (test_frame frames.bitmap g == 1)) 32 refl f h

word_small : (i : ℕ) → get_or frames.bitmap i 0 < 2 ^ 32
word_small zero = omega arith
word_small (suc i) = omega arith

frames-IsValid : IsValid frames
unfolding count_below test_frame bit
frames-IsValid = record {
  words = refl;
  small = omega arith;
  beyond = λ f h l. let m = marked f l in ground arith;
  counted = refl;
  word = word_small;
}

frame_alloc_example :
    (frame_alloc frames ≡ (0, frames)) × ((g : ℕ) → g < 3 → test_frame frames.bitmap g ≡ 1)
    ⊎ ((f : ℕ) × (f < 3)
        × (test_frame frames.bitmap f ≡ 0)
        × ((g : ℕ) → g < f → test_frame frames.bitmap g ≡ 1)
        × ((frame_alloc frames).0 ≡ f * 4096)
        × Changed frames f 1 (frame_alloc frames).1)
frame_alloc_example = frame_alloc_lem frames-IsValid refl

frame_free_example :
    (4096 / 4096 < 3 → Changed frames (4096 / 4096) 0 (frame_free frames 4096))
    × (3 ≤ 4096 / 4096 → frame_free frames 4096 ≡ frames)
frame_free_example = frame_free_lem 4096 frames-IsValid refl

frame_alloc_contiguous_example :
    (frame_alloc_contiguous frames 2 ≡ (0, frames))
      × ((a : ℕ) → a + 2 ≤ 3 → (k : ℕ) × (k < 2) × (test_frame frames.bitmap (a + k) ≡ 1))
    ⊎ ((a : ℕ) × (a + 2 ≤ 3)
        × FreeRun frames.bitmap a 2
        × ((frame_alloc_contiguous frames 2).0 ≡ a * 4096)
        × RunTaken frames a 2 (frame_alloc_contiguous frames 2).1)
frame_alloc_contiguous_example = frame_alloc_contiguous_lem 2 frames-IsValid refl (omega arith)

frame_largest_free_run_example : IsLongest frames.bitmap 3 (frame_largest_free_run frames)
frame_largest_free_run_example = frame_largest_free_run_lem frames refl

contiguous_runs : (frame_alloc_contiguous frames 2).0 ≡ 4096
unfolding frame_alloc_contiguous set_run set_frame test_frame free_run busy_at bit
contiguous_runs = refl
