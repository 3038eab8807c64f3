-- ===== src/Lib.antt =====
-- Verification of uncs-bot, a Discord bot for a game community.
--
-- The bot links supporters to Discord accounts (src/patron-link, src/supporters), runs map votes on
-- the game servers' rotation (src/map-votes, src/admin) and 50v50 events on the servers
-- (src/server-events), greets players (src/server-community), edits the whitelist of a game server
-- (src/admin) and tells staff what it infers from its reads of the game (src/common,
-- src/staff-alerts). Around those rules stand services that read and write a database, Discord,
-- Patreon and the game; the rules themselves are pure or keep their state in memory, and they are
-- what is modelled here.
--
-- Common holds the Boolean tests, the list and map methods that the source uses, and their lemmas.
-- A JavaScript Map is the list of its entries in insertion order; a string or null is an Option;
-- times are whole milliseconds and counts are natural numbers.
--
-- PatronLink models src/patron-link/patron-link.state.ts. State is the memory of PatronLinkState
-- with its tickets, Counter the class of that name, Flow the sign-ins, Code the refused codes. Run
-- has one constructor for each operation and runs lists of them. The IDs that randomId draws are
-- arguments of the operations, and the digest of a code is a parameter, so that two codes with one
-- digest are treated alike, as the source says.
--
-- Supporters models src/common/steam-id.ts and the rules of src/supporters: Steam and Automatic are
-- supporter-match.rules.ts, Founder is supporters.types.ts, Policy is founder-policy.ts and
-- NextSteps is supporterNextSteps, whose steps are their codes and areas without their texts.
-- Date.parse is a parameter, or has been applied.
--
-- Ballots models a map selection and its keys (Selection: src/common/map-labels.ts and
-- voting-policy.ts), planMapNext of src/admin/server-configuration.ts (Placement), buildBallot of
-- src/map-votes/ballot-builder.ts (Builder is the search for options, Ballot the rest),
-- ballotWinner of src/map-votes/voting-settings.ts (Winner) and votingIssues and closeReached of
-- src/common/voting-policy.ts (Policy). Builder calls Placement and the keys as buildBallot does.
--
-- Rounds models trackRound of src/common/round-tracker.ts: Track has the types and what one read
-- shows, Gap a read after a gap and Tracker a read after another. Scores, clocks and rotation
-- indexes are natural numbers, and a match clock is no longer than the time since 1970, so that no
-- start is negative.
--
-- StaffAlerts models observeHealth of src/staff-alerts/health-state.ts: Health is its state and
-- restartAlert, Observe the parts of one read in their order, Monitor the traces of reads. A build
-- label is one that cleanBuild has cleaned; scheduledMatch, which asks the time zone database, is a
-- parameter; the texts of the alerts are left out. Seeding models observeSeeding of
-- seeding-state.ts with windowAt as a parameter.
--
-- Community models src/server-community: Presence is observeCommunity of community-state.ts with
-- changedRound of src/common/round-tracker.ts, and Rotation is community-rotation.ts, where the
-- place that Math.random draws in a list is an argument.
--
-- Events models the 50v50 events of src/server-events: Record has the records of
-- server-events.types.ts, Roster is eventRoster and voteTeams, Rules, Moves and Plan are planEvent
-- and Complete is completeEventOperation of event-planner.ts; Lock is restoreStep and prepareStep,
-- Steps runStep with the choice of tick, and Outcome the results of an operation in
-- server-events.service.ts. Plan works on the tracks of Rounds. A message's text, a revision's
-- content and what only the store keeps are left out; a drawn ID is an argument, an absent field is
-- none, and a step that the source would throw on is none.
--
-- Admin models src/admin/whitelist-document.ts: Whitelist edits a document, the list of its lines,
-- for any way reads of telling headers and entries from other lines, and Reading is what the
-- expressions of the file make of a line. Letter case is folded in ASCII alone, which for these
-- expressions and texts is what the source's rules come to.
--
-- Loops are structural recursion on the lists that they go through, so nothing needs fuel. Bounds
-- are the source's: 5000 tickets, flows and keys, 50000 refused codes, 5 calls in ten minutes, 30
-- codes a minute, 15 days of founder window, 512 remembered players, 5 restores of the team lock a
-- minute apart and 3 attempts at switching it off.
--
-- Not modelled: the services, stores, controllers and Discord handlers around these rules, the
-- Patreon client, the RCON protocol, the configuration text beside the whitelist, the schemas of
-- stored settings, the sending of community messages, the requests, alerts, timers and store of the
-- 50v50 events, among them the checks of tick that the settings can be read and that an
-- administrator is confirmed, telemetry, the leaderboards and the web dashboard.
pub mod Common
pub mod PatronLink
pub mod Supporters
pub mod Ballots
pub mod StaffAlerts
pub mod Rounds
pub mod Events
pub mod Community
pub mod Admin
