-- ===== src/Realtime/Queries/Table.antt =====
-- A query client that keeps one optional value for each key: it shows that the laws of the interface
-- can hold, and runs the tests.
use virtual_office_sagara_ag.Prelude.{
  String, ◌≡◌, ◌≢◌, refl, ap, ◌||◌, Bool, true, false, Option, none, some, arith, ◌==◌, eq_iff,
  eq_refl, if◌then◌else◌,
}
use virtual_office_sagara_ag.Realtime.Queries.{QueryKey, Data, QueryClient}

-- The value behind `j` after `new` was put behind `k`.
abbrev pub put : (k j : QueryKey) → Option (Data k) → Option (Data j) → Option (Data j)
put QueryKey.pulse QueryKey.pulse new old = new
put QueryKey.agents_all QueryKey.agents_all new old = new
put QueryKey.runtime_gateway QueryKey.runtime_gateway new old = new
put QueryKey.runtime_overview QueryKey.runtime_overview new old = new
put QueryKey.delegations_all QueryKey.delegations_all new old = new
put QueryKey.tasks_all QueryKey.tasks_all new old = new
put QueryKey.approvals_all QueryKey.approvals_all new old = new
put (QueryKey.agent_detail i) (QueryKey.agent_detail j) new old = if i == j then new else old
put _ _ new old = old

pub put_self : (k : QueryKey) (new old : Option (Data k)) → put k k new old ≡ new
put_self QueryKey.pulse new old = refl
put_self QueryKey.agents_all new old = refl
put_self QueryKey.runtime_gateway new old = refl
put_self QueryKey.runtime_overview new old = refl
put_self QueryKey.delegations_all new old = refl
put_self QueryKey.tasks_all new old = refl
put_self QueryKey.approvals_all new old = refl
put_self (QueryKey.agent_detail i) new old = rw (eq_refl i)

pub put_ne :
    (k j : QueryKey) (new : Option (Data k)) (old : Option (Data j)) → k ≢ j → put k j new old ≡ old
put_ne QueryKey.pulse QueryKey.pulse new old h = absurd (h refl)
put_ne QueryKey.agents_all QueryKey.agents_all new old h = absurd (h refl)
put_ne QueryKey.runtime_gateway QueryKey.runtime_gateway new old h = absurd (h refl)
put_ne QueryKey.runtime_overview QueryKey.runtime_overview new old h = absurd (h refl)
put_ne QueryKey.delegations_all QueryKey.delegations_all new old h = absurd (h refl)
put_ne QueryKey.tasks_all QueryKey.tasks_all new old h = absurd (h refl)
put_ne QueryKey.approvals_all QueryKey.approvals_all new old h = absurd (h refl)
put_ne (QueryKey.agent_detail i) (QueryKey.agent_detail j) new old h =
    rw (virtual_office_sagara_ag.Prelude.ne→false i j (λ e. h (ap QueryKey.agent_detail e)))
put_ne _ _ new old h = refl

-- What is left behind `j` after `k` was removed: the key of all agents begins that of a detail.
abbrev pub drop : (k j : QueryKey) → Option (Data j) → Option (Data j)
drop QueryKey.agents_all (QueryKey.agent_detail j) old = none
drop k j old = put k j none old

pub drop_self : (k : QueryKey) (old : Option (Data k)) → drop k k old ≡ none
drop_self QueryKey.pulse old = refl
drop_self QueryKey.agents_all old = refl
drop_self QueryKey.runtime_gateway old = refl
drop_self QueryKey.runtime_overview old = refl
drop_self QueryKey.delegations_all old = refl
drop_self QueryKey.tasks_all old = refl
drop_self QueryKey.approvals_all old = refl
drop_self (QueryKey.agent_detail i) old = put_self (QueryKey.agent_detail i) none old

pub drop_ne :
    (id : String) (j : QueryKey) (old : Option (Data j))
    → QueryKey.agent_detail id ≢ j
    → drop (QueryKey.agent_detail id) j old ≡ old
drop_ne id j old h = put_ne (QueryKey.agent_detail id) j none old h

abbrev pub mark : QueryKey → QueryKey → Bool → Bool
mark QueryKey.tasks_all QueryKey.tasks_all old = true
mark QueryKey.approvals_all QueryKey.approvals_all old = true
mark QueryKey.delegations_all QueryKey.delegations_all old = true
mark QueryKey.pulse QueryKey.pulse old = true
mark QueryKey.agents_all QueryKey.agents_all old = true
mark QueryKey.runtime_gateway QueryKey.runtime_gateway old = true
mark QueryKey.runtime_overview QueryKey.runtime_overview old = true
mark (QueryKey.agent_detail i) (QueryKey.agent_detail j) old = i == j || old
mark _ _ old = old

pub mark_self : (k : QueryKey) (old : Bool) → mark k k old ≡ true
mark_self QueryKey.pulse old = refl
mark_self QueryKey.agents_all old = refl
mark_self QueryKey.runtime_gateway old = refl
mark_self QueryKey.runtime_overview old = refl
mark_self QueryKey.delegations_all old = refl
mark_self QueryKey.tasks_all old = refl
mark_self QueryKey.approvals_all old = refl
mark_self (QueryKey.agent_detail i) old = rw (eq_refl i)

pub record Table : Type 0 where
  pub entry : (k : QueryKey) → Option (Data k)
  pub stale : QueryKey → Bool

abbrev pub table_client : QueryClient
table_client = record {
  Cache = Table;
  get_query_data = λ c k. c.entry k;
  set_query_data = λ c k v. record c { entry = λ j. put k j (some v) (c.entry j) };
  remove_queries = λ c k. record c { entry = λ j. drop k j (c.entry j) };
  invalidate_queries = λ c k. record c { stale = λ j. mark k j (c.stale j) };
  is_invalidated = λ c k. c.stale k;
  get-set_self = λ c k v. put_self k (some v) (c.entry k);
  get-set_ne = λ c k j v h. put_ne k j (some v) (c.entry j) h;
  get-remove_self = λ c k. drop_self k (c.entry k);
  get-remove_ne = λ c id j h. drop_ne id j (c.entry j) h;
  get-invalidate = λ c k j. refl;
  invalidated-invalidate = λ c k. mark_self k (c.stale k);
}

abbrev pub empty_table : Table
empty_table = record { entry = λ k. none; stale = λ k. false }
