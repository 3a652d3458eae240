-- ===== src/Film/Tests.antt =====
-- A series of two films, and a release with a video of one of them.
use mathlib.Core.List.{mem-cons_self}
use kuro.Base.{
  ◌<◌, ◌≡◌, ◌⊎◌, refl, true, false, List, [], ◌∷◌, some, Text, text, text_eq, to_lower, has, Mem,
  length,
}
use kuro.Strings.{atoi, digits_value, trim_space}
use kuro.Regex.{ends, is_space, match_fold}
use kuro.Video.{is_video, base_name}
use kuro.Film.Words.{tokens, distinctive, is_alnum}
use kuro.Film.Number.{number, stated, marker, two_digits}
use kuro.Film.Key.{
  Entry, Key, beats, fit, count_hits, qualifies, judge, decide, named, new_key, common, match_name,
  theirs_loop, is_ours, is_other,
}
use kuro.Film.Key.Verdicts.{named-fit}
use kuro.Film.Pick.{File, videos_from, pick}
use kuro.Film.Pick.Laws.{file_at, pick_sound}

abbrev winter : Entry
winter = text "Garden Winter" ∷ []

abbrev summer : Entry
summer = text "Garden Summer" ∷ []

abbrev release : Text
release = text "Garden Summer 1080p"

number_reads : number (text "Show - 06 [1080p]") ≡ (6, false)
unfolding number marker to_lower mathlib.Core.List.flat_map ends match_fold is_space two_digits
    digits_value
number_reads = refl

fraction_reads : number (text "Show 06.5 (BD)") ≡ (0, true)
unfolding number marker to_lower mathlib.Core.List.flat_map ends match_fold is_space two_digits
    digits_value trim_space
fraction_reads = refl

abbrev summer_words : List (List Text)
summer_words = (text "summer" ∷ []) ∷ []

others_read : (new_key winter (summer ∷ [])).others ≡ summer_words ∷ []
unfolding new_key distinctive has common to_lower text_eq atoi is_alnum
others_read = refl

summer_listed : Mem summer_words (new_key winter (summer ∷ [])).others
summer_listed = rw others_read mem-cons_self

summer_better :
    beats
      (fit summer_words (tokens release))
      (fit (new_key winter (summer ∷ [])).own (tokens release))
    ≡ true
unfolding new_key distinctive has common to_lower text_eq atoi beats fit tokens count_hits qualifies
summer_better = refl

summer_is_named : named (new_key summer (winter ∷ [])) release ≡ true
unfolding new_key distinctive has common to_lower text_eq atoi beats fit tokens count_hits qualifies
    named judge decide theirs_loop number stated marker mathlib.Core.List.flat_map ends
summer_is_named = refl

named-fit_example :
    (0 < (fit (new_key summer (winter ∷ [])).own (tokens release)).hits)
    × ((o : List (List Text))
        → Mem o (new_key summer (winter ∷ [])).others
        → beats (fit o (tokens release)) (fit (new_key summer (winter ∷ [])).own (tokens release))
          ≡ false)
named-fit_example = named-fit summer (winter ∷ []) release summer_is_named

abbrev summer_key : Key
summer_key = record { number = 2; count = 2; own = summer_words; others = [] }

abbrev files : List File
files =
    record { name = text "readme.txt"; length = 1 }
    ∷ record { name = text "Garden Summer.mkv"; length = 900 }
    ∷ []

summer_picked : pick summer_key files ≡ (some 1, true)
unfolding pick videos_from is_video base_name match_name judge decide theirs_loop number tokens fit
    beats qualifies count_hits to_lower text_eq has marker mathlib.Core.List.flat_map ends
    match_fold is_space two_digits
summer_picked = refl

pick_sound_example :
    (f : File) × (file_at 1 files ≡ some f)
    × (is_video f.name ≡ true)
    × (((length (videos_from 0 files) ≡ 1)
          × (is_other (match_name summer_key (base_name f.name)) ≡ false))
        ⊎ (is_ours (match_name summer_key (base_name f.name)) ≡ true))
pick_sound_example = pick_sound summer_key files 1 summer_picked
