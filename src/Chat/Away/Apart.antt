-- ===== src/Chat/Away/Apart.antt =====
-- A conversation that streams in the background beside the one on view: what every change of the
-- thread list keeps of it (apps/desktop/src/stores/chat.ts).
use agent_workflow_platform.Prelude.{
  ℕ, String, true, false, List, some, ◌≡◌, ◌≢◌, inl, inr, arith, get_elem?, set, find_index?,
  find_index?-set, get_elem?-set_self, get_elem?-set_ne, lt_of_get_elem?, option_is, ◌==◌, ◌∙◌, sym,
  ap, ℕ-cases,
}
use agent_workflow_platform.Chat.Types.{Thread}
use agent_workflow_platform.Chat.State.{thread_index}
use agent_workflow_platform.Chat.Route.{runs_on}

-- The two threads have one id and one background stream.
pub record SameStream (x y : Thread) : Type 0 where
  pub id : y.id ≡ x.id
  pub is_streaming : y.is_streaming ≡ x.is_streaming
  pub reply : y.bg_streaming_reply ≡ x.bg_streaming_reply
  pub session : y.bg_session_id ≡ x.bg_session_id

-- The thread at `i` streams in the background, on a session and with a reply so far; the thread at
-- `j` is another one and does not know the session.
pub record Apart (sid a b : String) (i j : ℕ) (reply : String) (ts : List Thread) : Type 0 where
  pub mine : Thread
  pub other : Thread
  pub here : get_elem? ts i ≡ some mine
  pub there : get_elem? ts j ≡ some other
  pub streams : mine.is_streaming ≡ true
  pub carries : mine.bg_streaming_reply ≡ some reply
  pub runs : mine.bg_session_id ≡ some sid
  pub idle : option_is other.bg_session_id sid ≡ false
  pub routed : find_index? (runs_on sid) ts ≡ some i
  pub named : thread_index a ts ≡ some i
  pub labelled : thread_index b ts ≡ some j
  pub distinct : i ≢ j

module _ {sid a b : String} {i j : ℕ} {reply : String} {ts : List Thread} where
  pub Apart-set_mine :
      (v : Apart sid a b i j reply ts) (y : Thread) (reply' : String)
      → y.id ≡ v.mine.id
      → y.is_streaming ≡ true
      → y.bg_streaming_reply ≡ some reply'
      → y.bg_session_id ≡ some sid
      → Apart sid a b i j reply' (set ts i y)
  Apart-set_mine v y reply' same streams carries runs =
      let kept : runs_on sid y ≡ runs_on sid v.mine = cc (streams, v.streams, runs, v.runs) in
      record {
        mine = y;
        other = v.other;
        here = get_elem?-set_self ts i y (lt_of_get_elem? ts i v.here);
        there = get_elem?-set_ne ts i j y v.distinct ∙ v.there;
        streams = streams;
        carries = carries;
        runs = runs;
        idle = v.idle;
        routed = find_index?-set (runs_on sid) ts i v.mine y v.here kept ∙ v.routed;
        named = find_index?-set (λ t. t.id == a) ts i v.mine y v.here (rw same) ∙ v.named;
        labelled = find_index?-set (λ t. t.id == b) ts i v.mine y v.here (rw same) ∙ v.labelled;
        distinct = v.distinct;
      }

  pub Apart-set_other :
      (v : Apart sid a b i j reply ts) (y : Thread)
      → y.id ≡ v.other.id
      → option_is y.bg_session_id sid ≡ false
      → Apart sid a b i j reply (set ts j y)
  Apart-set_other v y same idle =
      let kept : runs_on sid y ≡ runs_on sid v.other = ground (arith, v.idle) in
      record {
        mine = v.mine;
        other = y;
        here = get_elem?-set_ne ts j i y (λ e. v.distinct (sym e)) ∙ v.here;
        there = get_elem?-set_self ts j y (lt_of_get_elem? ts j v.there);
        streams = v.streams;
        carries = v.carries;
        runs = v.runs;
        idle = idle;
        routed = find_index?-set (runs_on sid) ts j v.other y v.there kept ∙ v.routed;
        named = find_index?-set (λ t. t.id == a) ts j v.other y v.there (rw same) ∙ v.named;
        labelled = find_index?-set (λ t. t.id == b) ts j v.other y v.there (rw same) ∙ v.labelled;
        distinct = v.distinct;
      }

  -- A change that keeps the stream of the thread that it changes.
  pub Apart-keep :
      (v : Apart sid a b i j reply ts) (k : ℕ) (x y : Thread)
      → get_elem? ts k ≡ some x
      → SameStream x y
      → Apart sid a b i j reply (set ts k y)
  Apart-keep v k x y at same = elim (ℕ-cases k i) [
    | inl e ↦
        let q : x ≡ v.mine = cc (at, e, v.here) in
        rw e (
          Apart-set_mine v y reply (same.id ∙ ap (λ (t : Thread). t.id) q)
            (same.is_streaming ∙ ap (λ (t : Thread). t.is_streaming) q ∙ v.streams)
            (same.reply ∙ ap (λ (t : Thread). t.bg_streaming_reply) q ∙ v.carries)
            (same.session ∙ ap (λ (t : Thread). t.bg_session_id) q ∙ v.runs))
    | inr n ↦ elim (ℕ-cases k j) [
      | inl e ↦
          let q : x ≡ v.other = cc (at, e, v.there) in
          rw e (
            Apart-set_other v y (same.id ∙ ap (λ (t : Thread). t.id) q) (
              ap (λ o. option_is o sid) (same.session ∙ ap (λ (t : Thread). t.bg_session_id) q)
              ∙ v.idle))
      | inr m ↦
          let kept : runs_on sid y ≡ runs_on sid x = cc (same.is_streaming, same.session) in
          record {
            mine = v.mine;
            other = v.other;
            here = get_elem?-set_ne ts k i y n ∙ v.here;
            there = get_elem?-set_ne ts k j y m ∙ v.there;
            streams = v.streams;
            carries = v.carries;
            runs = v.runs;
            idle = v.idle;
            routed = find_index?-set (runs_on sid) ts k x y at kept ∙ v.routed;
            named = find_index?-set (λ t. t.id == a) ts k x y at (rw same.id) ∙ v.named;
            labelled = find_index?-set (λ t. t.id == b) ts k x y at (rw same.id) ∙ v.labelled;
            distinct = v.distinct;
          }
    ]
  ]
