-- ===== src/Vfs/Tests.antt =====
-- Names that `CleanPath` is given.
use yet_another_project_i_ll.Base.{◌≡◌, refl, [], ◌∷◌, ◌++◌, ok, abort}
use yet_another_project_i_ll.Vfs.{
  isspace, is_path_sep, lstrip_rounds, inplace_lstrip, rstrip_rounds, inplace_rstrip, without_dot,
  clean_path,
}
use yet_another_project_i_ll.Vfs.Clean.{clean_path_lem}

-- A blank, `./ab/` and a new line
clean_path_lem_example :
    clean_path
      ((32 ∷ []) ++ ((46 ∷ 47 ∷ []) ++ (((97 ∷ []) ++ (98 ∷ [])) ++ ((47 ∷ []) ++ (10 ∷ [])))))
    ≡ ok ((97 ∷ []) ++ (98 ∷ []))
unfolding isspace is_path_sep
clean_path_lem_example =
    clean_path_lem (32 ∷ []) (46 ∷ 47 ∷ []) (97 ∷ []) 98 (47 ∷ []) (10 ∷ []) (refl, tt) refl refl
      refl (refl, tt) (refl, tt)

root_kept : clean_path (47 ∷ []) ≡ ok (47 ∷ [])
unfolding clean_path inplace_lstrip lstrip_rounds inplace_rstrip rstrip_rounds without_dot isspace
    is_path_sep
root_kept = refl

two_separators : clean_path (47 ∷ 47 ∷ []) ≡ abort
unfolding clean_path inplace_lstrip lstrip_rounds inplace_rstrip rstrip_rounds without_dot isspace
    is_path_sep
two_separators = refl
