-- ===== src/Regex/Program/Tests.antt =====
-- Compiling the pattern `a*`.
use vexspoke.Base.{◌≡◌, refl, [], arith, some}
use vexspoke.Regex.Program.{Program, build, empty_program}
use vexspoke.Regex.Program.Code.{program_code}
use vexspoke.Regex.Program.Emission.{extend}
use vexspoke.Regex.Program.Building.{build-code, build_fits, build-some}
use vexspoke.Regex.Program.Samples.{
  a_star_nodes, a_star, always, a_star_program, a_star_read, a_star_built,
}

build-code_example :
    build always 3 a_star_nodes 1 empty_program ≡ extend always [] 0 (program_code a_star)
build-code_example = build-code always 3 a_star_nodes 1 a_star a_star_read

build_fits_example :
    (p : Program) × (build always 3 a_star_nodes 1 empty_program ≡ some p)
    × (p.insts ≡ program_code a_star)
build_fits_example =
    build_fits always 3 a_star_nodes 1 a_star a_star_read (λ bytes. refl) (omega arith)

build-some_example : a_star_program.insts ≡ program_code a_star
build-some_example =
    build-some always 3 a_star_nodes 1 a_star a_star_program a_star_read a_star_built
