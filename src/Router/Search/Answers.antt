-- ===== src/Router/Search/Answers.antt =====
-- router/ant/src/path_finder.rs, PathStore: the answers that a search has had when its time is over.
use mathlib.Core.List.{append_assoc, append-nil}
use stargate.Common.{
  ℕ, ◌≡◌, refl, sym, ap, ◌∙◌, Option, none, some, List, [], ◌∷◌, ◌++◌, arith, ◌==◌, ==-self, ==→eq,
  if◌then◌else◌,
}
use stargate.Common.Dict.{Dict, get, insert, remove, get-insert, get-remove}
use stargate.Router.Search.{AntFinalMessage, add_path, take_path}

-- the messages that are stored one after another, as handle_ant_final_message stores them
abbrev pub add_paths :
    List AntFinalMessage → Dict (List AntFinalMessage) → Dict (List AntFinalMessage)
add_paths [] m = m
add_paths (response ∷ responses) m = add_paths responses (add_path response.r_value response m)

-- the messages of one search
abbrev pub answers_of : ℕ → List AntFinalMessage → List AntFinalMessage
answers_of r [] = []
answers_of r (response ∷ responses) =
    let rest = answers_of r responses in if response.r_value == r then response ∷ rest else rest

-- what is stored under a key, with more after it
abbrev pub joined :
    Option (List AntFinalMessage) → List AntFinalMessage → Option (List AntFinalMessage)
joined (some paths) more = some (paths ++ more)
joined none [] = none
joined none (path ∷ more) = some (path ∷ more)

get-add_path :
    (k r : ℕ) (path : AntFinalMessage) (m : Dict (List AntFinalMessage))
    → get (add_path k path m) r ≡ (if k == r then joined (get m k) (path ∷ []) else get m r)
unfolding add_path
get-add_path k r path m = go (get m k)
  where
    go :
        (o : Option (List AntFinalMessage))
        → get
            (elim o [
              | none ↦ insert k (path ∷ []) m
              | some paths ↦ insert k (paths ++ path ∷ []) (remove k m)
            ])
            r
          ≡ (if k == r then joined o (path ∷ []) else get m r)
    go none = get-insert k r (path ∷ []) m
    go (some paths) =
        ground (arith, get-insert k r (paths ++ path ∷ []) (remove k m), get-remove k r m)

joined-joined :
    (o : Option (List AntFinalMessage)) (path : AntFinalMessage) (more : List AntFinalMessage)
    → joined (joined o (path ∷ [])) more ≡ joined o (path ∷ more)
joined-joined none path more = refl
joined-joined (some paths) path more = ap some (append_assoc paths (path ∷ []) more)

joined-nil : (o : Option (List AntFinalMessage)) → joined o [] ≡ o
joined-nil none = refl
joined-nil (some paths) = ap some (append-nil paths)

get-add_paths :
    (r : ℕ) (responses : List AntFinalMessage) (m : Dict (List AntFinalMessage))
    → get (add_paths responses m) r ≡ joined (get m r) (answers_of r responses)
get-add_paths r [] m = sym (joined-nil (get m r))
get-add_paths r (response ∷ responses) m =
    get-add_paths r responses (add_path response.r_value response m)
    ∙ ap (λ o. joined o (answers_of r responses)) (get-add_path response.r_value r response m)
    ∙ ground
        (arith, ==→eq response.r_value r, joined-joined (get m r) response (answers_of r responses))

-- Whatever answers come, of whatever searches: a search takes all of its own, in the order in which
-- they came and after those that were there, and none of another's; and then nothing is left of them.
pub take_path-add_paths :
    (r : ℕ) (responses : List AntFinalMessage) (m : Dict (List AntFinalMessage))
    → let (taken, left) = take_path r (add_paths responses m) in
      (taken ≡ joined (get m r) (answers_of r responses)) × ((take_path r left).0 ≡ none)
unfolding take_path
take_path-add_paths r responses m =
    (get-add_paths r responses m, ground (arith, get-remove r r (add_paths responses m), ==-self r))
