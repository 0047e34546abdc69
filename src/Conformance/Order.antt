-- ===== src/Conformance/Order.antt =====
-- The order of the embedded tables.
use nautilus_agents.Base.{◌≡◌, refl, List, [], ◌∷◌, ◌++◌, map, All, take, drop, true, ℕ}
use nautilus_agents.Base.{text_order, IsSorted, is_ascending, is_ascending-IsSorted}
use nautilus_agents.Text.{Text, codes}
use nautilus_agents.Conformance.{Fixture, schemas, fixtures}

module _ (include_bytes : Text → List ℕ) where
  -- The fixtures are two groups, of the valid directory and then of the invalid one, each with strictly
  -- ascending names and with the bytes of the files of these names; so are the schemas, in one group.
  pub fixtures-grouped :
      (valid invalid : List Fixture) × (fixtures include_bytes ≡ valid ++ invalid)
      × All (λ f. f.bytes ≡ include_bytes (codes "contract/v1/fixtures/valid/" ++ f.name)) valid
      × All (λ f. f.bytes ≡ include_bytes (codes "contract/v1/fixtures/invalid/" ++ f.name)) invalid
      × IsSorted (map (λ f. f.name) valid)
      × IsSorted (map (λ f. f.name) invalid)
      × All
          (λ s. s.bytes ≡ include_bytes (codes "contract/v1/schema/" ++ s.name))
          (schemas include_bytes)
      × IsSorted (map (λ s. s.name) (schemas include_bytes))
  unfolding fixtures schemas nautilus_agents.Base.text_less
  fixtures-grouped = (
    take 16 (fixtures include_bytes),
    drop 16 (fixtures include_bytes),
    refl,
    (
      refl,
      (
        refl,
        (
          refl,
          (
            refl,
            (
              refl,
              (
                refl,
                (refl, (refl, (refl, (refl, (refl, (refl, (refl, (refl, (refl, (refl, tt)))))))))),
              ),
            ),
          ),
        ),
      ),
    ),
    (
      refl,
      (
        refl,
        (
          refl,
          (
            refl,
            (
              refl,
              (
                refl,
                (
                  refl,
                  (
                    refl,
                    (
                      refl,
                      (
                        refl,
                        (
                          refl,
                          (
                            refl,
                            (
                              refl,
                              (
                                refl,
                                (
                                  refl,
                                  (
                                    refl,
                                    (
                                      refl,
                                      (refl, (refl, (refl, (refl, (refl, (refl, (refl, tt))))))),
                                    ),
                                  ),
                                ),
                              ),
                            ),
                          ),
                        ),
                      ),
                    ),
                  ),
                ),
              ),
            ),
          ),
        ),
      ),
    ),
    is_ascending-IsSorted (map (λ f. f.name) (take 16 (fixtures include_bytes))) refl,
    is_ascending-IsSorted (map (λ f. f.name) (drop 16 (fixtures include_bytes))) refl,
    (refl, (refl, (refl, (refl, (refl, tt))))),
    is_ascending-IsSorted (map (λ s. s.name) (schemas include_bytes)) refl,
  )
