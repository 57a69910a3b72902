-- ===== src/Conversation/Tests.antt =====
-- The conversation database at concrete data, under a digest that shifts each code.
use zoa.Base.{◌+◌, ◌*◌, ◌≡◌, refl, ◌≢◌, inl, none, some, List, [], ◌∷◌, map, arith, All}
use zoa.Base.Text.{Text, codes, trim}
use zoa.Base.Stamp.{second}
use zoa.Base.Sql.{Db, ok, query, exec, transaction}
use zoa.Conversation.Tables.{NodeRow, RefRow, Tables, Error, Codec, root_hash, node_hash}
use zoa.Conversation.Nodes.{
  ensure_node_exists, root_row, message_row, append, insert_node, add_node, load_chain, ancestors,
  scan_nodes,
}
use zoa.Conversation.Refs.{advance_ref, advance, update_refs, get_ref, acquire_lease, take_lease}
use zoa.Conversation.Tree.Sound.{Hashing}
use zoa.Conversation.Tree.Load.{quiet}
use zoa.Conversation.Tree.Appending.{ChainEnds, append-load_chain}
use zoa.Conversation.Invariant.{Inv}
use zoa.Conversation.History.{Call, open_at, add, create, lease, release, run}
use zoa.Conversation.History as History
use zoa.Conversation.History.Chains.{run_sound, run-load_chain}
use zoa.Conversation.Exclusion.{Refused, ShutOut}
use zoa.Conversation.Exclusion.Lasting.{run-ShutOut}
use zoa.Conversation.Cas.{advance_ref_once, acquire_lease_untrimmed}

abbrev pub toy : Codec
toy = record {
  Message = Text;
  role = λ msg. codes "user";
  marshal = λ msg. some msg;
  unmarshal = λ json. some json;
  sha256 = λ s. b'x' ∷ map (λ c. c + 11) s;
}

shifted : (s t : Text) → map (λ c. c + 11) s ≡ map (λ c. c + 11) t → s ≡ t
shifted [] [] e = refl
shifted [] (c ∷ t) e = absurd (cc)
shifted (c ∷ s) [] e = absurd (cc)
shifted (c ∷ s) (c' ∷ t) e = ground (arith, shifted s t)

no_newline : (s : Text) → All (λ c. c ≢ b'\n') (map (λ c. c + 11) s)
no_newline [] = tt
no_newline (c ∷ s) = (omega arith, no_newline s)

pub toy-Hashing : Hashing toy
toy-Hashing = record {
  no_collision = λ s t e. shifted s t (ground arith);
  one_line = λ s. (omega arith, no_newline s);
  nonempty = λ s e. cc;
  read_back = λ m json e. ground arith;
}

abbrev pub main : Text
main = codes "main"

abbrev pub root_node : NodeRow
root_node = root_row toy 0

abbrev main_ref : RefRow
main_ref = record {
  name = main;
  hash = root_hash toy;
  leased_by = [];
  lease_until = none;
  updated_at = 0;
}

abbrev pub opened : Tables
opened = record { nodes = root_node ∷ []; refs = main_ref ∷ [] }

opened-Inv : Inv toy opened
unfolding root_row root_hash
opened-Inv = record {
  grown = (refl, inl (refl, refl, refl, refl), tt);
  refs_found = ((root_node, refl), tt);
}

abbrev calls : List (Call toy)
calls =
    open_at 0
    ∷ create main [] 1
    ∷ lease main (codes "r1") 2 2
    ∷ History.advance main (root_hash toy) (codes "hi") (codes "r1") 3 3
    ∷ release main (codes "r1") 4
    ∷ []

abbrev empty : Db Tables Error
empty = record { tables = record { nodes = []; refs = [] }; faults = [] }

run_sound_example : Inv toy (run toy calls empty).tables
run_sound_example = run_sound toy toy-Hashing calls empty (record { grown = tt; refs_found = tt })

run-load_chain_example :
    (load_chain toy [] (quiet (run toy calls (quiet opened)).tables)).0
    ≡ (load_chain toy [] (quiet (quiet opened).tables)).0
unfolding root_row root_hash
run-load_chain_example =
    run-load_chain toy toy-Hashing calls (quiet opened) [] root_node opened-Inv refl

abbrev hi_hash : Text
hi_hash = node_hash toy (root_hash toy) (codes "hi")

append_hi : (append toy [] (codes "hi") 5 (quiet opened)).0 ≡ ok hi_hash
unfolding append ensure_node_exists insert_node add_node query exec root_row root_hash node_hash
    message_row
append_hi = refl

load_root : (load_chain toy [] (quiet (quiet opened).tables)).0 ≡ ok []
unfolding load_chain query exec root_row root_hash ancestors scan_nodes
load_root = refl

append-load_chain_example :
    ChainEnds toy toy-Hashing [] hi_hash
      (codes "hi")
      []
      (append toy [] (codes "hi") 5 (quiet opened)).1.tables
append-load_chain_example =
    append-load_chain toy toy-Hashing [] (codes "hi") 5 (quiet opened) opened-Inv.grown refl
      append_hi load_root

lease_main : (acquire_lease main (codes "r1") (30 * second) 5 6 (quiet opened)).0 ≡ ok tt
unfolding acquire_lease get_ref take_lease update_refs transaction query exec trim
lease_main = refl

-- The holder appends and renews, and another runner tries to lease the ref.
abbrev meanwhile : List (Call toy)
meanwhile =
    History.advance main (root_hash toy) (codes "hi") (codes "r1") 7 7
    ∷ lease main (codes "r") (9 * second) (9 * second)
    ∷ History.renew main (codes "r1") (30 * second) (10 * second)
    ∷ []

run-ShutOut_example :
    ShutOut toy main
      (codes "r")
      (20 * second)
      (run toy meanwhile (acquire_lease main (codes "r1") (30 * second) 5 6 (quiet opened)).1)
unfolding trim
run-ShutOut_example =
    run-ShutOut toy main (codes "r1") (codes "r") (30 * second) 5 6 (25 * second) (20 * second)
      meanwhile (quiet opened) refl (λ e. cc) (omega arith) (omega arith)
      (tt, ((λ e. ((λ f. cc), omega arith)), ((λ e f. omega arith), tt))) lease_main

advance_main :
    (advance_ref toy main (root_hash toy) (codes "hi") (codes "r1") 5 6 (quiet opened)).0
    ≡ ok hi_hash
unfolding advance_ref get_ref advance insert_node add_node update_refs transaction query exec trim
    root_row root_hash node_hash message_row
advance_main = refl

advance_ref_once_example :
    let d' =
      (advance_ref toy main (root_hash toy) (codes "hi") (codes "r1") 5 6 (quiet opened)).1 in
    Refused d'.tables (advance_ref toy main (root_hash toy) (codes "yo") (codes "r") 7 8 d')
unfolding trim
advance_ref_once_example =
    advance_ref_once toy toy-Hashing main (root_hash toy) (codes "hi") (codes "yo") (codes "r1")
      (codes "r") 5 6 7 8 (quiet opened) opened-Inv refl advance_main

acquire_lease_untrimmed_example :
    acquire_lease (codes " main ") (codes "r1") (30 * second) 5 6 (quiet opened)
    ≡ (ok tt, quiet opened)
unfolding trim
acquire_lease_untrimmed_example =
    acquire_lease_untrimmed (codes " main ") (codes "r1") (30 * second) 5 6 opened main_ref refl
      refl refl (refl, tt)
