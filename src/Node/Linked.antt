-- ===== src/Node/Linked.antt =====
-- Which methods leave the link of a node to its remote node alone, and what `connect` makes of it.
use pyaseba.Base.{
  ℕ, ◌≡◌, refl, ◌∙◌, Bool, true, false, not, Option, none, some, [], List, ◌∷◌, Text, ℤ, Dict,
}
use pyaseba.Base.Results.{Error, Result, ok, err, assertion_error}
use pyaseba.Utils.{Finder}
use pyaseba.Mirroring.{Mirroring, mirror, is_empty}
use pyaseba.Client.{Call, Client, History}
use pyaseba.Node.State.{
  World, Action, NodeClass, pure, gets, or_raise, modify, the_client, perform, ask, new_list, here,
  ◌>>=◌,
}
use pyaseba.Node.Update.{new_lists, store_all, update_all, update}
use pyaseba.Node.Connect.{
  variables_of, empty_values, sizes_by_name, when, log_error, selected_names, init_variables,
  after_load, load_script, install, start_mirroring, lift,
}

-- The attributes that say which remote node a node is linked to, and by which client.
abbrev pub Link : Type 0
Link = ℕ × Text × ℤ × ℤ × Option ℕ × Bool

abbrev pub link : World → Link
link w = (w.connection, w.target, w.node_id, w.node_id_int16, w.client, w.shared_client)

-- An action that leaves the link alone, whether it returns or raises.
pub record KeepsLink {A : Type 0} (m : Action A) : Type 0 where
  pub run : (w : World) → link (m w).1 ≡ link w

module _ {A B : Type 0} where
  bind_rest :
      (m : Action A) (f : A → Action B) (w : World)
      → ((a : A) → KeepsLink (f a))
      → link ((m >>= f) w).1 ≡ link (m w).1
  bind_rest m f w k = rest (m w)
    where
      rest :
          (p : Result A × World)
          → link
              (let x : Result B × World = elim p.0 [ ok a ↦ f a p.1 | err e ↦ (err e, p.1) ] in x.1)
            ≡ link p.1
      rest (ok a, w') = (k a).run w'
      rest (err e, w') = refl

  pub links_bind :
      {m : Action A} {f : A → Action B}
      → KeepsLink m
      → ((a : A) → KeepsLink (f a))
      → KeepsLink (m >>= f)
  links_bind {m} {f} km kf = record { run = λ w. bind_rest m f w kf ∙ km.run w }

module _ {A : Type 0} where
  pub links_pure : (a : A) → KeepsLink (pure a)
  links_pure a = record { run = λ w. refl }

  pub links_gets : (f : World → A) → KeepsLink (gets f)
  links_gets f = record { run = λ w. refl }

  links_or_raise : (o : Option A) (e : Error) → KeepsLink (or_raise o e)
  links_or_raise none e = record { run = λ w. refl }
  links_or_raise (some a) e = record { run = λ w. refl }

  pub links_ask : (answer : History → A) (c : ℕ) (call : Call) → KeepsLink (ask answer c call)
  unfolding ask
  links_ask answer c call = record { run = λ w. refl }

pub links_modify : (f : World → World) → ((w : World) → link (f w) ≡ link w) → KeepsLink (modify f)
links_modify f h = record { run = h }

pub links_perform : (c : ℕ) (call : Call) → KeepsLink (perform c call)
unfolding perform
links_perform c call = record { run = λ w. refl }

links_client : KeepsLink the_client
unfolding the_client
links_client = record { run = λ w. (links_or_raise w.client assertion_error).run w }

links_new_list : (v : List ℤ) → KeepsLink (new_list v)
unfolding new_list
links_new_list v = record { run = λ w. refl }

links_empty_values : (variables : Dict Text (ℕ × ℕ)) → KeepsLink (empty_values variables)
unfolding empty_values
links_empty_values [] = links_pure []
links_empty_values ((name, size) ∷ variables) =
    links_bind (links_new_list [])
      (λ r. links_bind (links_empty_values variables) (λ rest. links_pure ((name, r) ∷ rest)))

links_log_error : (line : Option Text) → KeepsLink (log_error line)
links_log_error none = record { run = λ w. refl }
links_log_error (some []) = record { run = λ w. refl }
links_log_error (some (digit ∷ digits)) = record { run = λ w. refl }

module _ (client : Client) where
  links_new_lists : (vs : Dict Text (List ℤ)) → KeepsLink (new_lists client vs)
  unfolding new_lists
  links_new_lists [] = links_pure []
  links_new_lists ((name, words) ∷ vs) =
      links_bind (links_new_list words)
        (λ r. links_bind (links_new_lists vs) (λ rest. links_pure ((name, r) ∷ rest)))

  links_store_all : (c : ℕ) (vs : Dict Text (List ℤ)) → KeepsLink (store_all client c vs)
  unfolding store_all
  links_store_all c [] = links_perform c Call.warn
  links_store_all c (v ∷ vs) = links_bind (links_new_lists (v ∷ vs)) (λ d.
      links_modify (λ w. record w { variable_values = d; prev_variables_values = d }) (λ w. refl))

  pub links_update : (wait_ms : ℕ) → KeepsLink (update client wait_ms false)
  unfolding update update_all
  links_update wait_ms = links_bind links_client (λ c.
      links_bind (links_gets (λ w. w.node_id)) (λ node_id. links_bind (links_gets here) (λ include.
        links_bind
          (links_ask client.get_all_variables c (Call.get_all_variables node_id wait_ms include))
          (λ vs. links_store_all c vs))))

module _ (client : Client) (finds : Finder) (class : NodeClass) where
  pub links_init_variables : KeepsLink (init_variables client finds class)
  unfolding init_variables
  links_init_variables = links_bind (links_gets (λ w. variables_of w.description)) (λ variables.
      links_bind (links_empty_values variables) (λ values.
        links_modify
          (λ w. record w {
            variable_values = values;
            variable_sizes = sizes_by_name variables;
            sync_variables = selected_names client finds class variables;
          })
          (λ w. refl)))

  links_after_load :
      (c : ℕ) (raised : Option Text) → KeepsLink (after_load client finds class c raised)
  unfolding after_load
  links_after_load c (some message) = links_log_error (client.error_line message)
  links_after_load c none = links_bind (links_gets (λ w. w.node_id)) (λ id.
      links_bind (links_gets here) (λ include.
        links_bind (links_ask client.get_description c (Call.get_description id include)) (λ desc.
          links_bind (links_modify (λ w. record w { description = desc }) (λ w. refl))
            (λ _. links_bind links_init_variables (λ _. links_pure true)))))

  pub links_load_script :
      (script : Text) (events constants : Dict Text ℤ)
      → KeepsLink (load_script client finds class script events constants)
  unfolding load_script
  links_load_script script events constants = links_bind links_client (λ c.
      links_bind (links_modify (λ w. record w { mirroring = none }) (λ w. refl)) (λ _.
        links_bind (links_gets (λ w. w.node_id)) (λ id.
          links_bind (links_ask client.load_script c (Call.load_script id script events constants))
            (λ raised. links_after_load c raised))))

  links_install :
      (c : ℕ) (m : Mirroring) (loaded : Bool) → KeepsLink (install client finds class c m loaded)
  unfolding install perform
  links_install c m false = record { run = λ w. refl }
  links_install c m true = record { run = λ w. refl }

  links_lift : {A : Type 0} (r : Result A) → KeepsLink (lift client finds class r)
  links_lift r = record { run = λ w. refl }

  pub links_when : (b : Bool) {m : Action (Unit {0})} → KeepsLink m → KeepsLink (when b m)
  links_when true k = k
  links_when false k = record { run = λ w. refl }

  pub links_start_mirroring : KeepsLink (start_mirroring client finds class)
  unfolding start_mirroring
  links_start_mirroring = links_bind links_client (λ c.
      links_bind (links_gets (λ w. w.node_id)) (λ id. links_bind (links_gets here) (λ include.
        links_bind (links_ask client.get_description c (Call.get_description id include)) (λ found.
          links_bind (links_or_raise found assertion_error) (λ description.
            links_bind (links_gets (λ w. w.mirroring_config)) (λ config.
              links_bind (links_lift (mirror finds description config)) (λ m.
                links_when (not (is_empty m.code)) (
                  links_bind (links_load_script m.code m.code_events [])
                    (λ loaded. links_install c m loaded)))))))))
