-- ===== src/Runner/Offer/Pick.antt =====
-- Which queue item a worker is offered (runner/src/database.rs).
use janitor.Base.{String, ℕ, ◌≡◌, Option, none, some, List, All, ◌≢◌, ◌⊎◌, []}
use janitor.Queue.Rows.{QueueItem}
use janitor.Queue.Listing.{vcs_info}
use janitor.Queue.Selection.{IsExpected, HostIsKept, IsPick}
use janitor.Runner.Offer.{RunnerWorld, QueueAssignment}
use janitor.Runner.Offer.Ranking.{Precedes}

-- The item is none of the assigned ones, of the codebase and campaign that are asked for, if they
-- are, and on none of the excluded hosts, if there are any.
abbrev pub Passes :
    (String → Option String)
    → Option String
    → Option String
    → List String
    → List ℕ
    → RunnerWorld
    → QueueItem
    → Type 0
Passes host_of codebase campaign hosts assigned w row =
    All (λ id. id ≢ row.id) assigned
    × IsExpected codebase row.codebase
    × IsExpected campaign row.campaign
    × ((hosts ≡ []) ⊎ HostIsKept host_of hosts (vcs_info w.tables.queue row).branch_url)

-- What a worker may be offered: the item that is picked, with its codebase's repository.
abbrev pub IsBest :
    ℕ
    → (String → Option String)
    → Option String
    → Option String
    → List String
    → List ℕ
    → RunnerWorld
    → Option QueueAssignment
    → Type 0
IsBest unit host_of codebase campaign hosts assigned w none =
    IsPick (Passes host_of codebase campaign hosts assigned w) (Precedes unit w.candidates)
      w.tables.queue.rows none
IsBest unit host_of codebase campaign hosts assigned w (some a) =
    IsPick (Passes host_of codebase campaign hosts assigned w) (Precedes unit w.candidates)
      w.tables.queue.rows (some a.queue_item)
    × (a.vcs ≡ vcs_info w.tables.queue a.queue_item)
