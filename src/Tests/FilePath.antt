-- ===== src/Tests/FilePath.antt =====
-- Paths as std::filesystem spells them.
use corepkgs_v.Prelude.{◌≡◌, refl, codes, equal}
use corepkgs_v.FilePath.{lexically_normal, filename, stem_extension, extension, stem}

spelled : lexically_normal (codes "./a//b/../c") ≡ codes "a/c"
unfolding lexically_normal
spelled = refl

trailing_dot : lexically_normal (codes "/x/y/.") ≡ codes "/x/y/"
unfolding lexically_normal
trailing_dot = refl

outside : lexically_normal (codes "../../a/..") ≡ codes "../.."
unfolding lexically_normal
outside = refl

names :
    (extension (codes "d/x.tar.gz") ≡ codes ".gz") × (stem (codes "d/.hidden") ≡ codes ".hidden")
unfolding filename stem_extension equal
names = (refl, refl)
