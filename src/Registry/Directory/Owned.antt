-- ===== src/Registry/Directory/Owned.antt =====
-- internal/db/registry.go: how many teams one identity owns.
use rekam.Prelude.{
  ℕ, ◌≤◌, Text, Bool, true, false, List, [], ◌∷◌, ◌++◌, some, ◌≡◌, arith, text_eq, count,
  update_where, All, Bool-cases, inl, inr, subst, text_beq_iff, count-snoc, ◌<◌,
}
use rekam.Registry.{Registry, TeamRow, Answer, gives, validate_identity_fields}
use rekam.Registry.Passwords.{Pbkdf2}
use rekam.Registry.Directory.{
  create_team, set_team_plan, rename_team, soft_delete_team, index_team_member, unindex_team_member,
  update_team, count_owned_teams, owned_by, live_id, new_team,
}
use rekam.Store.{null_str}
use rekam.Registry.Answers.{>>=-gives, settle_rule}
use rekam.Registry.Events.{
  Event, TeamEvent, on_accounts, on_teams, on_grants, on_tickets, team_created, plan_set,
  team_renamed, team_deleted, indexed, unindexed, settle, apply_team, apply, run, empty,
}
use rekam.Registry.Events.Frame.{
  apply_account-AccountsOnly, apply_grant-GrantsOnly, apply_ticket-TicketsOnly,
}

-- a team is created under a limit of at most so many
abbrev pub Limited : ℕ → Event → Type 0
Limited limit (on_teams (team_created id name path by max now)) = max ≤ limit
Limited limit _ = Unit

-- every identity owns at most so many live teams
abbrev Bounded : ℕ → List TeamRow → Type 0
Bounded limit rows = (id : Text) → count (owned_by id) rows ≤ limit

-- a change that leaves a creator as it was and brings no team back
count-update_where :
    (id : Text) (p : TeamRow → Bool) (f : TeamRow → TeamRow)
    → ((t : TeamRow) → owned_by id t ≡ false → owned_by id (f t) ≡ false)
    → (rows : List TeamRow) → count (owned_by id) (update_where p f rows) ≤ count (owned_by id) rows
unfolding count update_where
count-update_where id p f keeps [] = omega arith
count-update_where id p f keeps (t ∷ rows) =
    ground (arith, keeps t, count-update_where id p f keeps rows)

-- what a creation that succeeds has checked and done
record Created (r r' : Registry) (t : TeamRow) (by : Text) (max : ℕ) : Type 0 where
  below : count (owned_by by) r.teams < max
  rows : r'.teams ≡ r.teams ++ t ∷ []

create-Created :
    (r r' : Registry) (id name path by : Text) (max now : ℕ)
    → create_team r id name path by max now ≡ gives r'
    → Created r r' (new_team id name path by now) by max
unfolding create_team count_owned_teams
create-Created r r' id name path by max now h =
    let (u, v, h1) = >>=-gives (validate_identity_fields name path) _ r' h in
    record { below = ground arith; rows = ground arith }

new_team-owned :
    (owner id name path by : Text) (now : ℕ)
    → owned_by owner (new_team id name path by now) ≡ true
    → by ≡ owner
unfolding null_str
new_team-owned owner id name path [] now h = absurd (cc)
new_team-owned owner id name path (c ∷ by) now h = (text_beq_iff (c ∷ by) owner).0 (ground arith)

Created-Bounded :
    (limit : ℕ) (r r' : Registry) (id name path by : Text) (max now : ℕ)
    → max ≤ limit
    → Bounded limit r.teams
    → Created r r' (new_team id name path by now) by max
    → Bounded limit r'.teams
Created-Bounded limit r r' id name path by max now h b c owner =
    let t : TeamRow = new_team id name path by now in
    rw (c.rows, count-snoc (owned_by owner) r.teams t)
      (elim (Bool-cases (owned_by owner t)) [
        | inl y ↦
            let below : count (owned_by owner) r.teams < max =
              subst (λ (k : Text). count (owned_by k) r.teams < max)
                (new_team-owned owner id name path by now y) c.below in
            rw y (omega (arith, below))
        | inr n ↦ rw n (omega (arith, b owner))
      ])

updated-Bounded :
    (limit : ℕ) (r : Registry) (id : Text) (f : TeamRow → TeamRow)
    → ((owner : Text) (t : TeamRow) → owned_by owner t ≡ false → owned_by owner (f t) ≡ false)
    → Bounded limit r.teams
    → Bounded limit (settle r (update_team r id f)).teams
unfolding update_team
updated-Bounded limit r id f keeps b owner =
    ground (arith, b owner, count-update_where owner (live_id id) f (keeps owner) r.teams)

renamed-Bounded :
    (limit : ℕ) (r : Registry) (id name : Text)
    → Bounded limit r.teams
    → (r' : Registry) → rename_team r id name ≡ gives r'
    → Bounded limit r'.teams
unfolding rename_team
renamed-Bounded limit r id name b r' h =
    let (u, v, h1) = >>=-gives (validate_identity_fields name (b'x' ∷ [])) _ r' h in
    let kept = updated-Bounded limit r id (λ t. record t { name = name }) (λ o t q. q) b in
    subst (λ (o : Answer Registry). Bounded limit (settle r o).teams) h1 kept

deleted-Bounded :
    (limit : ℕ) (r : Registry) (id : Text) (now : ℕ)
    → Bounded limit r.teams
    → (r' : Registry) → soft_delete_team r id now ≡ gives r'
    → Bounded limit r'.teams
unfolding soft_delete_team
deleted-Bounded limit r id now b r' h =
    let stamp : TeamRow → TeamRow = λ t. record t { deleted_at = some now } in
    let (r1, h1, h2) = >>=-gives (update_team r id stamp) _ r' h in
    let kept = updated-Bounded limit r id stamp (λ o t q. ground arith) b in
    let same : r1.teams ≡ r'.teams = ground arith in
    subst (λ (ts : List TeamRow). Bounded limit ts) same
      (subst (λ (o : Answer Registry). Bounded limit (settle r o).teams) h1 kept)

apply_team-Bounded :
    (limit : ℕ) (r : Registry) (e : TeamEvent)
    → Limited limit (on_teams e)
    → Bounded limit r.teams
    → Bounded limit (apply_team r e).teams
unfolding apply_team set_team_plan rename_team soft_delete_team index_team_member
    unindex_team_member
apply_team-Bounded limit r (team_created id name path by max now) l b =
    settle_rule (λ r'. Bounded limit r'.teams) r _ b
      (λ r' h.
        Created-Bounded limit r r' id name path by max now l b
          (create-Created r r' id name path by max now h))
apply_team-Bounded limit r (plan_set id plan seats) l b =
    updated-Bounded limit r id _ (λ owner t h. h) b
apply_team-Bounded limit r (team_renamed id name) l b =
    settle_rule (λ r'. Bounded limit r'.teams) r (rename_team r id name) b
      (renamed-Bounded limit r id name b)
apply_team-Bounded limit r (team_deleted id now) l b =
    settle_rule (λ r'. Bounded limit r'.teams) r (soft_delete_team r id now) b
      (deleted-Bounded limit r id now b)
apply_team-Bounded limit r (indexed team id) l b = λ owner. ground (arith, b owner)
apply_team-Bounded limit r (unindexed team id) l b = b

apply-Bounded :
    (limit : ℕ) (p : Pbkdf2) (hash : Text → Text) (r : Registry) (e : Event)
    → Limited limit e
    → Bounded limit r.teams
    → Bounded limit (apply p hash r e).teams
unfolding apply
apply-Bounded limit p hash r (on_accounts e) l b =
    rw (apply_account-AccountsOnly p hash r e).teams_kept b
apply-Bounded limit p hash r (on_teams e) l b = apply_team-Bounded limit r e l b
apply-Bounded limit p hash r (on_grants e) l b = rw (apply_grant-GrantsOnly hash r e).teams_kept b
apply-Bounded limit p hash r (on_tickets e) l b =
    rw (apply_ticket-TicketsOnly hash r e).teams_kept b

run-Bounded :
    (limit : ℕ) (p : Pbkdf2) (hash : Text → Text) (r : Registry) (es : List Event)
    → All (Limited limit) es
    → Bounded limit r.teams
    → Bounded limit (run p hash r es).teams
unfolding run
run-Bounded limit p hash r [] l b = b
run-Bounded limit p hash r (e ∷ es) l b =
    run-Bounded limit p hash (apply p hash r e) es l.1 (apply-Bounded limit p hash r e l.0 b)

-- In every registry that any history of its operations makes from an empty one, no identity owns more
-- live teams than the largest limit under which a team was created, whatever was renamed or deleted
-- in between.
pub owned_teams_bounded :
    (limit : ℕ) (p : Pbkdf2) (hash : Text → Text) (es : List Event)
    → All (Limited limit) es
    → (id : Text) → count_owned_teams (run p hash empty es) id ≤ limit
unfolding count_owned_teams
owned_teams_bounded limit p hash es l =
    run-Bounded limit p hash empty es l (λ id. unfold count in omega arith)
