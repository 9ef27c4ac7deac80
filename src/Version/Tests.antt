-- ===== src/Version/Tests.antt =====
-- version.rs on the example of its comment, and on pinned times.
use docsis_monitor.Version.{pos, negsuc, Civil, format, build_epoch, parse_i64, build_stamp}
use docsis_monitor.Base.{codes, ◌≡◌, refl, none, some}
use docsis_monitor.Version.Visible.{first_word}
use docsis_monitor.Version.Stamp.{build_epoch-build_stamp}

abbrev noon : Civil
noon = record { year = pos 2_026; month = 9; day = 5; hour = 13; minute = 5; second = 8 }

format-noon : format (λ e. some noon) (pos 1_788_637_958) ≡ codes "1788637958 2026-9-5 13:05:08"
unfolding format
format-noon = refl

pinned_epoch : build_epoch (some (codes " -12\n")) (some 7) ≡ negsuc 11
unfolding build_epoch
pinned_epoch = refl

too_large : parse_i64 (codes "9223372036854775808") ≡ none
unfolding parse_i64
too_large = refl

unpinned : build_epoch (some (codes "today")) (some 7) ≡ pos 7
unfolding build_epoch
unpinned = refl

build_epoch-build_stamp_example :
    build_epoch (some (first_word (build_stamp (λ e. some noon) none (some 7)))) none
    ≡ build_epoch none (some 7)
build_epoch-build_stamp_example = build_epoch-build_stamp (λ e. some noon) none (some 7) none
