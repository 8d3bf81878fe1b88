-- ===== src/Lib.antt =====
-- A verification library for dpkg, the package manager of Debian: the routines of libdpkg and of the
-- dpkg program that decide on versions, names, architectures, dependencies, statuses and archive
-- headers, its buffers of variable length, its triggers, and the link groups of update-alternatives.
--
-- The parts, and how they interact:
--   * Base: shared names; lists, C strings (lists of byte codes without the NUL), integers with sign.
--     Base/Tests has the Boolean tests, Base/Int the integers, Base/CStrings the strings with `strcmp`
--     of the C library, Base/Options the chains of optional values.
--   * CType: lib/dpkg/c-ctype.c and c-ctype.h, the character classes that the parsers use.
--   * Version: lib/dpkg/version.c. `verrevcmp` and its loops, `dpkg_version_compare` and
--     `dpkg_version_relate`. Version/Key gives a version part a sequence of integers and orders these;
--     Version/Text and Version/Digits are about the inner loops, Version/Refine about the whole routine,
--     Version/KeyOrder, Version/Order and Version/Relate about the order.
--   * DebVersion: lib/dpkg/deb-version.c, the format version of a .deb archive.
--   * Names: pkg_name_is_invalid of lib/dpkg/parsehelp.c, dpkg_arch_name_is_invalid of
--     lib/dpkg/arch.c and trig_name_is_invalid of lib/dpkg/trigname.c.
--   * VersionText: parseversion, varbufversion and versiondescribe of lib/dpkg/parsehelp.c.
--     VersionText/Text is about the scans of a text, VersionText/Epoch about the epoch and the two
--     parts, VersionText/Verdict about the whole routine.
--   * Arch: lib/dpkg/arch.c, the list of architectures as a record of the three built-in items and the
--     ones added behind them, and its database file as bytes, which it reads with `fgets_checked` of
--     lib/dpkg/utils.c; it checks names with Names. Arch/Lines is about the lines of the file,
--     Arch/Database about saving and loading.
--   * Pkg: lib/dpkg/pkg.c, the status of an instance and the count of its set.
--   * Depcon: lib/dpkg/depcon.c, whether a package meets a dependency; it uses Version and Arch.
--   * Tar: lib/dpkg/tarfn.c, the numbers of a tar header, its mode, format and checksum.
--   * Ar: lib/dpkg/ar.c, the headers of the members of an ar archive.
--   * ErrorReports: src/main/errors.c, the list of failed packages; ErrorReports/Listed is about what is
--     reported in the end.
--   * Filters: src/main/filters.c, the path filters of an unpacking.
--   * StrVec: lib/dpkg/strvec.c, vectors of strings as lists; StrVec/Join is about splitting and joining.
--   * FilePath: lib/dpkg/path.c; FilePath/Canonical is about canonical pathnames, which are split and
--     joined with StrVec, against walks from the root. Text: lib/dpkg/string.c and lib/dpkg/strhash.c.
--   * Varbuf: lib/dpkg/varbuf.c, a buffer as its bytes with the numbers of bytes used and allocated.
--     Varbuf/Memory is about writes and reallocation, Varbuf/Room about growing, Varbuf/Commands about
--     the calls against the text that the buffer holds, Varbuf/Prefix and Varbuf/Suffix about the tests
--     and the trimming of texts, Varbuf/Overflow about cutting and the limits.
--   * PkgQueue: lib/dpkg/pkg-list.c and lib/dpkg/pkg-queue.c, on a heap of nodes; PkgQueue/Fifo is about
--     the sequence of nodes of a queue.
--   * Triggers: lib/dpkg/trignote.c, the activations and awaiters of lib/dpkg/triglib.c, modstatdb_note
--     of lib/dpkg/dbmodify.c and the checks of w_status in lib/dpkg/dump.c. Packages and the nodes of
--     the lists of awaited packages are numbers, and the nodes are shared by two lists.
--     Triggers/Lists, Triggers/Linked, Triggers/Emptied and Triggers/Updates are about these lists,
--     Triggers/Notes and Triggers/Calls about the rounds of the loop over awaiting packages,
--     Triggers/Clearing about the loop, Triggers/Depth about its recursion with the notes,
--     Triggers/Activation, Triggers/Noting and Triggers/Awaiter about activations, and Triggers/Effects
--     about what calls achieve. Triggers/Options has the kinds and options of triggers,
--     Triggers/Transitional the activation of all triggers after an upgrade of dpkg.
--     Triggers/Cycle is the detection of cycles in src/main/trigproc.c, on the same packages; it gives a
--     package up by a note. Cycle/Filled and Cycle/Safety are about its nodes and errors, Cycle/Tracking
--     and Cycle/Runs about sequences of calls.
--   * Alternatives: utils/update-alternatives.c, a link group as the record `struct alternative`,
--     with its slave links and choices; Alternatives/Best is about the best choice,
--     Alternatives/Choices and Alternatives/Removal about adding and removing choices.
--     Alternatives/Saving writes the file of a group and Alternatives/Database reads it; the files
--     below the latter go from a number and a line to a slave, a choice and a group.
--     Alternatives/Links has the symbolic links and the pending operations: Links/Paths is about the
--     nodes of paths, Links/Pending about the operations of one link, Links/Install about its
--     installation. Alternatives/Actions has the actions, which use the file and the links: an update
--     saves the file and commits the links.
--   * Tests: the theorems at concrete inputs.
--
-- Conventions: a function carries the name of the C function, and its inner loops are helpers above
-- it. A function that writes through a pointer returns the new state. `none` stands for a null
-- pointer, or, where a comment says so, for an internal error or a step past the end of a string; in
-- Alternatives/Links and Alternatives/Actions a result `none` is a fatal error of the program.
-- Unsigned arithmetic keeps its wrap-around, as `% 2 ^ w`; `char` is signed, but the bytes of Varbuf
-- are below 256. Files of Alternatives/Links are a function from paths below the root directory to what
-- stands there; no two paths stand for one file, and every directory of a path can be written.
--
-- Fuel: the outer loop of `verrevcmp` runs on the lengths of both parts and one more, which is
-- enough as each round takes a character at least from one of them. Numbers are printed with the
-- number itself as fuel, which is enough as each step divides by the base. The file of a group is
-- loaded with its length as fuel, which is enough as each line takes a character at least. A list
-- of packages is freed with any number as fuel, of which the number of its nodes is enough, and the
-- reports of errors are walked likewise. The file of architectures is loaded with its length as fuel,
-- which is enough as each line takes a character at least. The fuel of `modstatdb_note` is the depth of
-- its calls with `trig_clear_awaiters`; one more than the number of awaited packages is enough, as
-- each call empties the list of one of them. `qsort` of the C library is written as an insertion,
-- its comparisons being those of the source.
--
-- Parameters: `fnmatch` of the C library is an argument of the filters. What a file holds is an
-- argument of the functions that load it. The program `mv`, whether `stat` misses a file, the directory
-- of the alternatives and the option to force are the fields of `System`. The bytes that an allocation
-- leaves uninitialised are an argument of the functions on buffers; a failed one ends the program.
--
-- Limits of Triggers: no package has the status `notinstalled` before or after a change, so that the
-- count of the set stays; the package database is the map of packages, and whether it can be written
-- is constant.
--
-- Limits of Pkg and Varbuf: the count of installed instances, an `int`, stays below its bound; the
-- character arguments of Varbuf are the bytes of `char`, so that their conversions keep them, and
-- characters are compared as bytes.
--
-- Limits of Alternatives/Database: a file holds no NUL; the length of the last part of a long line is
-- read as if the buffer had not been moved. Limits of Triggers/Cycle: what is printed when a package is
-- given up, and its field `istobe`, are left out.
--
-- Limits of StrVec: the capacity of a vector is left out, so that a push always succeeds.
--
-- Not modelled: input and output, the release of memory, translated messages; the parsers and
-- writers of the package database, the files of interests in triggers and the deferred ones, the file
-- system database, unpacking, configuring, removing and the front ends, start-stop-daemon, the options
-- and menus of update-alternatives, dselect, the Perl modules and the copies of C library functions in
-- lib/compat.
pub mod Base
pub mod CType
pub mod Version
pub mod DebVersion
pub mod Names
pub mod VersionText
pub mod Pkg
pub mod PkgQueue
pub mod Ar
pub mod Filters
pub mod FilePath
pub mod Text
pub mod Tar
pub mod Depcon
pub mod Arch
pub mod Alternatives
pub mod ErrorReports
pub mod StrVec
pub mod Triggers
pub mod Varbuf
mod Tests
