-- ===== src/InactiveLinks/Tests.antt =====
-- Connections of socket/timer/handling_inactive_link.cpp, and the theorems at them.
use unix_programming.Base.{
  ℕ, ◌<◌, ◌≤◌, ◌≡◌, refl, false, Option, none, some, List, [], ◌∷◌, ◌++◌, map, arith, ◌==◌,
  if◌then◌else◌, Gives, All, ◌>>=◌,
}
use unix_programming.TimerList.{
  write, add_timer, adjust_timer, del_timer, tick, insert_after, insert_loop, link_front,
  link_between, link_last, set_next, set_prev, store, adjust_head, adjust_inner, bypass,
  delete_head, delete_tail, delete_inner, release, drop_head,
}
use unix_programming.TimerList.Chain.{Entry, node}
use unix_programming.TimerList.Loop.{insert}
use unix_programming.InactiveLinks.{
  Server, on_accept, some_bytes, timer_handler, accepted, data_on, signals, sigalrm, run,
}
use unix_programming.InactiveLinks.Serves.{Serves, on_accept-Serves, timer_handler-Fired}

-- connection 7, whose timer at the address 1 expires at 20
abbrev seven : Entry
seven = record { address = 1; expire = 20; user_data = 7 }

abbrev server : Server
server = record {
  timers = record {
    memory = write (λ a. none) 1 (some (node seven none none));
    head = some 1;
    tail = some 1;
  };
  users = λ i.
      if i == 7 then record { sockfd = 7; timer = some 1 } else record { sockfd = 0; timer = none };
  timeout = false;
  stop = false;
  closed = [];
}

server-Serves : Serves 5 server (seven ∷ [])
server-Serves = record {
  list = record { chain = (refl, tt); distinct = (refl, tt); head = refl; tail = refl };
  sorted = (tt, tt);
  within = omega arith;
  known = ((refl, refl), tt);
}

on_accept-Serves_example :
    Gives
      (λ s'. Serves 9 s' (insert (record { address = 2; expire = 24; user_data = 8 }) (seven ∷ [])))
      (on_accept 2 8 2 9 server)
on_accept-Serves_example =
    on_accept-Serves 2 8 2 5 9 server (seven ∷ []) server-Serves (omega arith) (omega arith) refl
      refl (omega arith)

timer_handler-Fired_example :
    Gives
      (λ s'.
        (ds : List Entry) × (rs : List Entry) × (seven ∷ [] ≡ ds ++ rs)
        × All (λ x. x.expire ≤ 21) ds
        × All (λ x. 21 < x.expire) rs
        × (s'.closed ≡ [] ++ map (λ x. x.user_data) ds)
        × Serves 21 s' rs)
      (timer_handler 2 21 server)
timer_handler-Fired_example =
    timer_handler-Fired 2 5 21 server (seven ∷ []) server-Serves (omega arith) (omega arith)

-- Two connections; the first sends something, the second does not and is closed.
abbrev day : Option (List ℕ)
day = do
  s ←
      run 9
        ((accepted (some 8) 2 9 ∷ data_on 7 some_bytes 12 ∷ [], 12)
          ∷ (signals (sigalrm ∷ []) ∷ [], 25)
          ∷ [])
        server
  some s.closed

day_closes : day ≡ some (8 ∷ [])
unfolding run add_timer adjust_timer del_timer tick insert_after insert_loop link_front link_between
    link_last set_next set_prev store adjust_head adjust_inner bypass delete_head delete_tail
    delete_inner release drop_head
day_closes = refl
