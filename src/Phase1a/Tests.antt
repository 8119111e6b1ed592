-- ===== src/Phase1a/Tests.antt =====
-- The theorems on phase1a-archive/phase1a.c at a concrete state.
use elissa_x_priscilla_colla.Base.{
  ℕ, ◌<◌, ◌≡◌, refl, ◌==◌, if◌then◌else◌, pos, minus_one, none, some, false, List, [], ◌∷◌, arith,
}
use elissa_x_priscilla_colla.Base.Run.{halt, call, Finishes}
use elissa_x_priscilla_colla.Phase1b.Chain.{All, Absent, Distinct}
use elissa_x_priscilla_colla.Phase1a.State.{State, Process}
use elissa_x_priscilla_colla.Phase1a.Processes.{join, quit_phase_1a, target_of, find_pid}
use elissa_x_priscilla_colla.Phase1a.Links.{IsFamily}
use elissa_x_priscilla_colla.Phase1a.Joining.{Joined, join-Joined}
use elissa_x_priscilla_colla.Phase1b.State.{context_switch}
use elissa_x_priscilla_colla.Phase1a.Latest.{order}
use elissa_x_priscilla_colla.Phase1a.Quitting.{switched, JoinsIt, quit_phase_1a-join}
use elissa_x_priscilla_colla.Phase1a.Sporking.{Wish}

abbrev entry : Process
entry = record {
  pid = pos 2;
  priority = pos 3;
  status = minus_one;
  name = [];
  children = none;
  next = none;
  parent = some 1;
  stack = pos 0;
  start_func = pos 0;
  arg = pos 0;
  exit_status = pos 0;
  term_order = 0;
}

-- The children 3 and 5 of 1 have quit, 5 after 3, and 4 has not. The other entries are not in use.
abbrev three_children : State
three_children = record {
  process_table = λ i.
      if i == 1
      then record entry { pid = pos 1; status = pos 0; children = some 3 }
      else if i == 3
      then record entry { next = some 4; term_order = 1 }
      else if i == 4
      then record entry { next = some 5; status = pos 0 }
      else if i == 5
      then record entry { term_order = 2 }
      else record entry { pid = minus_one };
  running_process = some 1;
  next_pid = 6;
  termination_counter = 3;
}

abbrev children : List ℕ
children = 3 ∷ 4 ∷ 5 ∷ []

children-IsFamily : IsFamily 1 children three_children
children-IsFamily = (refl, (refl, (refl, refl)))

children-Distinct : Distinct children
children-Distinct = ((omega arith, (omega arith, tt)), ((omega arith, tt), (tt, tt)))

join-Joined_example : Finishes (Joined three_children 1 children) (join false three_children)
join-Joined_example =
    join-Joined three_children 1 children refl children-IsFamily children-Distinct (omega arith)

abbrev wish : Wish
wish = record { name = []; start_func = pos 4096; arg = pos 0; priority = pos 4 }

-- Child 4 runs, and will end with status 7.
abbrev ending : State
ending = record three_children { running_process = some 4 }

child_four : ¬ Absent 4 children
child_four off = off.1.0 refl

earlier : All (λ d. order ending d < 3) children
earlier = (omega arith, (omega arith, (omega arith, tt)))

one_found : target_of (pos 1) ending ≡ some 1
unfolding target_of find_pid
one_found = refl

quit_phase_1a-join_example :
    (quit_phase_1a (pos 7) (pos 1) ending
      ≡ call (context_switch 4 1) (switched ending 4 (pos 7) 1) (λ _ u. halt 1 u))
    × Finishes (JoinsIt ending 4 (pos 7) 1 children) (join false (switched ending 4 (pos 7) 1))
quit_phase_1a-join_example =
    quit_phase_1a-join ending 4 (pos 7) 1 children child_four earlier refl children-IsFamily
      children-Distinct (omega arith) (pos 1) one_found
