-- ===== src/DataFile/Tests.antt =====
-- Two calls for one mutex.
use revchat.Base.{ℕ, List, ◌∷◌, Option, some, [], ◌≡◌, refl, arith}
use revchat.Base.Integers.{pos}
use revchat.Base.Text.{codes}
use revchat.Cache.Store.{Cache}
use revchat.DataFile.Exclusion
use revchat.DataFile.Exclusion.{Other, other_call, other_cleanup, run_others}
use revchat.DataFile.Mutex.{Times, one_day, get_data_file_mutex}

abbrev no_mutexes : Cache (Option ℕ)
no_mutexes = record { entries = []; default_expiration = pos one_day }

abbrev first_times : Times
first_times = record { adding = 5; getting = 6; setting = 7 }

abbrev next_times : Times
next_times = record { adding = 50; getting = 60; setting = 70 }

first_mutex : (get_data_file_mutex (codes "pr") 1 first_times no_mutexes).0 ≡ some 1
unfolding get_data_file_mutex
first_mutex = refl

-- Another file, whose mutex is asked for in between, and a run of the cleanup.
abbrev others : List (Other ℕ)
others =
    other_call (codes "pr2") 9 (record { adding = 20; getting = 21; setting = 22 })
    ∷ other_cleanup 40
    ∷ []

get_data_file_mutex-same_example :
    (get_data_file_mutex
      (codes "pr")
      2
      next_times
      (run_others others (get_data_file_mutex (codes "pr") 1 first_times no_mutexes).1)).0
    ≡ some 1
unfolding revchat.Base.Text.text_beq
get_data_file_mutex-same_example =
    Exclusion.get_data_file_mutex-same (codes "pr") 1 2 1 first_times next_times others no_mutexes
      refl (omega arith) first_mutex (refl, (omega arith, tt)) (omega arith) (omega arith)
