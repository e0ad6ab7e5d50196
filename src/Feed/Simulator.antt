-- ===== src/Feed/Simulator.antt =====
-- The thread of `NetworkClient` (include/NetworkClient.h, src/NetworkClient.cpp).
use quant_sim_x.Prelude.{
  ◌≡◌, refl, Bool, true, false, not, Option, none, some, List, [], ◌∷◌, if◌then◌else◌,
}

-- `joinable` says whether `thread_` stands for a thread.
pub record NetworkClient : Type 0 where
  pub running : Bool
  pub joinable : Bool

abbrev pub new_network_client : NetworkClient
new_network_client = record { running = false; joinable = false }

-- `none` is `std::terminate`, which an assignment to a thread that is joinable calls.
unfoldable pub start : NetworkClient → Option NetworkClient
start c =
    if c.running
    then some c
    else if c.joinable
    then none
    else some (record { running = true; joinable = true })

-- also the destructor; the join waits for the round of the loop that sees the flag
unfoldable pub stop : NetworkClient → NetworkClient
stop c = if not c.running then c else record { running = false; joinable = false }

-- a call of `start` for `true`, and of `stop` for `false`
unfoldable pub switch : Bool → NetworkClient → Option NetworkClient
unfolding start stop
switch true c = start c
switch false c = some (stop c)

unfoldable pub switch_all : List Bool → NetworkClient → Option NetworkClient
unfolding switch
switch_all [] c = some c
switch_all (b ∷ bs) c = elim (switch b c) [ none ↦ none | some e ↦ switch_all bs e ]

abbrev pub last_of : Bool → List Bool → Bool
last_of b [] = b
last_of b (x ∷ xs) = last_of x xs

abbrev threads : Bool → NetworkClient
threads b = record { running = b; joinable = b }

switch_lem : (b : Bool) (c : Bool) → switch b (threads c) ≡ some (threads b)
unfolding switch start stop
switch_lem true true = refl
switch_lem true false = refl
switch_lem false true = refl
switch_lem false false = refl

switch_all_from :
    (c : Bool) (bs : List Bool) → switch_all bs (threads c) ≡ some (threads (last_of c bs))
unfolding switch_all
switch_all_from c [] = refl
switch_all_from c (b ∷ bs) = rw (switch_lem b c, switch_all) (switch_all_from b bs)

-- Any calls of `start` and `stop` one after another, of a simulator that is new, end without
-- `std::terminate`, and there is a thread, which runs, exactly if the last of them was `start`.
pub switch_all_lem :
    (bs : List Bool)
    → let b = last_of false bs in
      switch_all bs new_network_client ≡ some (record { running = b; joinable = b })
switch_all_lem bs = switch_all_from false bs
