-- ===== src/Manager/Responses.antt =====
-- The event of a process group on its way to its state manager.
use inc_lifecycle.Base.{
  ℕ, ◌≡◌, refl, sym, ap, ◌∙◌, Bool, true, false, Option, none, some, List, get_elem?, get_elem?-set,
  get_elem?-set_ne, set, arith, ◌==◌, if◌then◌else◌, Bool-cases, Option-cases, inl, inr,
}
use inc_lifecycle.Group.{not_set, ControlClientId, Graph, is_not_set}
use inc_lifecycle.Group.Requests.{control_client_responses}
use inc_lifecycle.Manager.{
  Message, ControlClientChannel, ProcessGroup, Manager, send, send_if_set, send_response, put_group,
  put_channel, channel_of, send_responses, clear_sent, event_message, cancellation,
}
use inc_lifecycle.Manager.Routing.{graph_in, graph_at, put_channel-graph}

channel_in : ℕ → Option ProcessGroup → Option ControlClientChannel
channel_in i none = none
channel_in i (some g) = elim (get_elem? g.channels i) [ none ↦ none | some c ↦ c ]

none≢some : {c : ControlClientChannel} → none ≡ some c → ⊥
none≢some e = cc

channel_of-in :
    (id : ControlClientId) (m : Manager)
    → channel_of id m
      ≡ channel_in id.process_index (get_elem? m.process_groups id.process_group_index)
unfolding channel_of channel_in
channel_of-in id m = elim (Option-cases (get_elem? m.process_groups id.process_group_index)) [
  | inl e ↦ rw (e, channel_of, channel_in) refl
  | inr (g, e) ↦ rw (e, channel_of, channel_in) refl
]

-- A change of the graph leaves the channels.
groups_channel :
    (k i j : ℕ) (g : ProcessGroup) (graph : Graph) (groups : List ProcessGroup)
    → get_elem? groups i ≡ some g
    → channel_in k (get_elem? (set groups i (record g { graph = graph })) j)
      ≡ channel_in k (get_elem? groups j)
unfolding channel_in
groups_channel k i j g graph groups e = elim (Bool-cases (j == i)) [
  | inl equal ↦
      let at : j ≡ i = ground arith in
      rw (at, get_elem?-set groups i g (record g { graph = graph }) e, e, channel_in) refl
  | inr other ↦
      ap (channel_in k) (get_elem?-set_ne groups i j (record g { graph = graph }) (ground arith))
]

pub put_group-channel :
    (id : ControlClientId) (i : ℕ) (g : ProcessGroup) (graph : Graph) (m : Manager)
    → get_elem? m.process_groups i ≡ some g
    → channel_of id (put_group i (record g { graph = graph }) m) ≡ channel_of id m
unfolding put_group
put_group-channel id i g graph m e =
    channel_of-in id (put_group i (record g { graph = graph }) m)
    ∙ groups_channel id.process_index i id.process_group_index g graph m.process_groups e
    ∙ sym (channel_of-in id m)

put_group_self :
    (i : ℕ) (g : ProcessGroup) (graph : Graph) (m : Manager)
    → get_elem? m.process_groups i ≡ some g
    → graph_at i (put_group i (record g { graph = graph }) m) ≡ some graph
unfolding put_group
put_group_self i g graph m e =
    ap graph_in (get_elem?-set m.process_groups i g (record g { graph = graph }) e)

channel_in-set :
    (k : ℕ) (g : ProcessGroup) (c c' : ControlClientChannel)
    → channel_in k (some g) ≡ some c
    → channel_in k (some (record g { channels = set g.channels k (some c') })) ≡ some c'
unfolding channel_in
channel_in-set k g c c' e = elim (Option-cases (get_elem? g.channels k)) [
  | inl missing ↦ absurd (cc)
  | inr (o, at) ↦ rw (get_elem?-set g.channels k o (some c') at, channel_in) refl
]

pub put_channel-channel :
    (id : ControlClientId) (c c' : ControlClientChannel) (m : Manager)
    → channel_of id m ≡ some c
    → channel_of id (put_channel id c' m) ≡ some c'
unfolding put_channel put_group channel_in
put_channel-channel id c c' m e =
    elim (Option-cases (get_elem? m.process_groups id.process_group_index)) [
      | inl missing ↦ absurd (
          none≢some (sym (ap (channel_in id.process_index) missing) ∙ sym (channel_of-in id m) ∙ e))
      | inr (g, at) ↦
          let g' : ProcessGroup = record g {
            channels = set g.channels id.process_index (some c');
          } in
          channel_of-in id (put_channel id c' m)
          ∙ rw (at, put_channel, get_elem?-set m.process_groups id.process_group_index g g' at)
              (channel_in-set id.process_index g c c'
                (sym (ap (channel_in id.process_index) at) ∙ sym (channel_of-in id m) ∙ e))
    ]

-- A message for a client with a channel is put into it if its slot is free.
send_if_set-eq :
    (msg : Message) (c : ControlClientChannel) (m : Manager)
    → is_not_set msg.request_or_response ≡ false
    → channel_of msg.originating_control_client m ≡ some c
    → send_if_set msg m ≡ (
      put_channel msg.originating_control_client (send_response msg c).0 m,
      (send_response msg c).1,
    )
unfolding send_if_set send
send_if_set-eq msg c m set_code e = rw (set_code, send_if_set, e, send) refl

graph-in :
    (o : Option ProcessGroup) (graph : Graph)
    → graph_in o ≡ some graph
    → (g : ProcessGroup) × (o ≡ some g) × (g.graph ≡ graph)
graph-in none graph e = absurd (cc)
graph-in (some g) graph e = (g, refl, cc)

send_if_set-unset :
    (msg : Message) (m : Manager)
    → is_not_set msg.request_or_response ≡ true
    → send_if_set msg m ≡ (m, false)
unfolding send_if_set
send_if_set-unset msg m e = rw (e, send_if_set) refl

-- The event alone: what the group does with it and where the message is.
send_responses-eq :
    (i : ℕ) (g g2 : ProcessGroup) (m m1 : Manager) (sent : Bool)
    → get_elem? m.process_groups i ≡ some g
    → is_not_set g.graph.cancel_message.request_or_response ≡ true
    → send_if_set (event_message g) m ≡ (m1, sent)
    → get_elem? m1.process_groups i ≡ some g2
    → send_responses i m
      ≡ put_group i (record g2 { graph = control_client_responses sent false g2.graph }) m1
unfolding send_responses
send_responses-eq i g g2 m m1 sent at no_cancel e at2 =
    rw (at, send_responses) refl
    ∙ ap
        (λ r.
          clear_sent i r.1 (send_if_set (cancellation g) r.0).1
            (send_if_set (cancellation g) r.0).0)
        e
    ∙ ap (λ r. clear_sent i sent r.1 r.0) (send_if_set-unset (cancellation g) m1 no_cancel)
    ∙ rw (at2, clear_sent) refl

control_client_responses-event :
    (sent : Bool) (g : Graph)
    → is_not_set g.event ≡ false
    → control_client_responses sent false g ≡ (if sent then record g { event = not_set } else g)
unfolding control_client_responses
control_client_responses-event true g e = rw (e, control_client_responses) ground arith
control_client_responses-event false g e = ground arith

delivered :
    (i : ℕ) (g : ProcessGroup) (c : ControlClientChannel) (m : Manager)
    → get_elem? m.process_groups i ≡ some g
    → is_not_set g.graph.event ≡ false
    → is_not_set g.graph.cancel_message.request_or_response ≡ true
    → channel_of g.graph.last_state_manager m ≡ some c
    → (channel_of g.graph.last_state_manager (send_responses i m)
        ≡ some (send_response (event_message g) c).0)
      × (graph_at i (send_responses i m)
          ≡ some (
              if (send_response (event_message g) c).1
              then record g.graph { event = not_set }
              else g.graph))
delivered i g c m at event no_cancel e =
    let id = g.graph.last_state_manager in
    let r = send_response (event_message g) c in
    let m1 = put_channel id r.0 m in
    let (g2, at2, same) =
      graph-in (get_elem? m1.process_groups i) g.graph
        (put_channel-graph i id r.0 m ∙ ap graph_in at) in
    let eq =
      send_responses-eq i g g2 m m1 r.1 at no_cancel (send_if_set-eq (event_message g) c m event e)
        at2 in
    let graph = control_client_responses r.1 false g2.graph in
    (
      ap (channel_of id) eq
          ∙ put_group-channel id i g2 graph m1 at2
          ∙ put_channel-channel id c r.0 m e,
      ap (graph_at i) eq
          ∙ put_group_self i g2 graph m1 at2
          ∙ ap (λ h. some (control_client_responses r.1 false h)) same
          ∙ ap some (control_client_responses-event r.1 g.graph event),
    )

-- The event of a group is put into the channel of its state manager and is no longer pending, if no
-- response waits there; otherwise that response is left and the event stays pending. No cancel
-- message is pending and the state manager has a channel.
pub send_responses-delivers :
    (i : ℕ) (g : ProcessGroup) (c : ControlClientChannel) (m : Manager)
    → get_elem? m.process_groups i ≡ some g
    → is_not_set g.graph.event ≡ false
    → is_not_set g.graph.cancel_message.request_or_response ≡ true
    → channel_of g.graph.last_state_manager m ≡ some c
    → (channel_of g.graph.last_state_manager (send_responses i m)
        ≡ some (
            if c.response.empty
            then record c { response = record { empty = false; msg = event_message g } }
            else c))
      × (graph_at i (send_responses i m)
          ≡ some (if c.response.empty then record g.graph { event = not_set } else g.graph))
unfolding send_response
send_responses-delivers i g c m at event no_cancel e = elim (Bool-cases c.response.empty) [
  | inl free ↦
      let d = delivered i g c m at event no_cancel e in
      rw (free) (d.0 ∙ rw (free, send_response) refl, d.1 ∙ rw (free, send_response) refl)
  | inr full ↦
      let d = delivered i g c m at event no_cancel e in
      rw (full) (d.0 ∙ rw (full, send_response) refl, d.1 ∙ rw (full, send_response) refl)
]
