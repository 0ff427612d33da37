-- ===== src/Agent/FileService/Tests.antt =====
-- Runs of the path check.
use craft_stack.Prelude.{◌≡◌, refl, [], ◌∷◌, ◌++◌, Text, codes, same, arith, if◌then◌else◌}
use craft_stack.Prelude.Dict.{Dict, get}
use craft_stack.GoText.{has_prefix, split}
use craft_stack.GoPath.{print_stack, clean, join}
use craft_stack.GoPath.Laws.{IsElement, absolute}
use craft_stack.Agent.FileService.{resolved, access_reject, abs, resolve_instance_path}
use craft_stack.Agent.FileService.Resolved.{
  resolve_instance_path-below, resolve_instance_path-sibling, sibling,
}

abbrev servers : Dict Text
servers = (codes "i", codes "/srv/a") ∷ []

-- Another instance's directory beside it
escapes : resolve_instance_path [] servers (codes "i") (codes "../ab") ≡ resolved (codes "/srv/ab")
unfolding resolve_instance_path get same abs join clean split has_prefix
escapes = refl

stays : resolve_instance_path [] servers (codes "i") (codes "../b") ≡ access_reject
unfolding resolve_instance_path get same abs join clean split has_prefix
stays = refl

srv-IsElement : IsElement (codes "srv")
unfolding same
srv-IsElement = record {
  no_slash = (omega arith, (omega arith, (omega arith, tt)));
  not_empty = refl;
  not_dot = refl;
  not_up = refl;
}

a-IsElement : IsElement (codes "a")
unfolding same
a-IsElement = record {
  no_slash = (omega arith, tt);
  not_empty = refl;
  not_dot = refl;
  not_up = refl;
}

ab-IsElement : IsElement (codes "ab")
unfolding same
ab-IsElement = record {
  no_slash = (omega arith, (omega arith, tt));
  not_empty = refl;
  not_dot = refl;
  not_up = refl;
}

resolve_instance_path-below_example :
    resolve_instance_path [] servers (codes "i") (print_stack (codes "ab" ∷ codes "srv" ∷ []))
    ≡ resolved (
        absolute (codes "a" ∷ codes "srv" ∷ [])
        ++ b'/' ∷ print_stack (codes "ab" ∷ codes "srv" ∷ []))
unfolding get same print_stack
resolve_instance_path-below_example =
    resolve_instance_path-below [] servers (codes "i") (codes "a") (codes "srv" ∷ []) refl
      (a-IsElement, (srv-IsElement, tt)) (codes "ab") (codes "srv" ∷ [])
      (ab-IsElement, (srv-IsElement, tt))

resolve_instance_path-sibling_example :
    resolve_instance_path [] servers (codes "i") (sibling (codes "ab")) ≡ (
      if has_prefix (codes "ab") (codes "a")
      then resolved (absolute (codes "ab" ∷ codes "srv" ∷ []))
      else access_reject)
unfolding get same print_stack
resolve_instance_path-sibling_example =
    resolve_instance_path-sibling [] servers (codes "i") (codes "a") (codes "srv" ∷ []) refl
      (a-IsElement, (srv-IsElement, tt)) (codes "ab") ab-IsElement
