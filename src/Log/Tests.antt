-- ===== src/Log/Tests.antt =====
-- One message of each way to log, with a file open.
use cpp100net.Common.{ℕ, ◌≡◌, refl, some, List, [], ◌∷◌, ◌++◌}
use cpp100net.Log.{Task, echo_task, perror_task, info_kind, perror_kind, turn}
use cpp100net.Log.Turns.{log_all, lines, count_lines, texts, again, waiting, turn-turn-log_all}

abbrev logged : List Task
logged = perror_task (1 ∷ []) (2 ∷ []) ∷ echo_task info_kind (3 ∷ []) ∷ []

-- What comes of the message of PError comes after the later one.
texts_lem : texts logged ≡ 3 ∷ []
unfolding texts
texts_lem = refl

texts-again_lem : texts (again logged) ≡ 1 ∷ 2 ∷ []
unfolding texts again
texts-again_lem = refl

-- The clock tells the number of its reading.
abbrev clock : ℕ → List ℕ
clock n = n ∷ []

abbrev first_lines : List ℕ
first_lines = info_kind ++ (5 ∷ 3 ∷ [])

abbrev last_lines : List ℕ
last_lines = perror_kind ++ (6 ∷ 1 ∷ (perror_kind ++ (7 ∷ 2 ∷ [])))

turn-turn-log_all_example :
    (turn clock (log_all logged (waiting [] 5 (some []) []))
      ≡ waiting (again logged) 6 (some first_lines) (3 ∷ []))
    × (turn clock (turn clock (log_all logged (waiting [] 5 (some []) [])))
        ≡ waiting [] 8 (some (first_lines ++ last_lines)) (3 ∷ 1 ∷ 2 ∷ []))
unfolding lines count_lines texts again
turn-turn-log_all_example = turn-turn-log_all clock logged 5 (some []) []
