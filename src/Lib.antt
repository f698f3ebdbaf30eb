-- ===== src/Lib.antt =====
-- The TypeScript packages of the repository: the subgraph that indexes the contracts' events, the
-- SDK that encodes and draws the images, the web application with its functions, the bots, the
-- API, and the scripts that deploy the contracts.
--
-- Subgraph (packages/theword-subgraph). Subgraph.Entities has the entities of schema.graphql as
-- records and the store as tables from ids to entities. `load` gives a copy, and an assignment
-- reaches the store by `save` only, so a handler that reads two entities before it saves either is
-- written that way. Subgraph.Helpers is src/utils/helpers.ts (get_or_create_account for
-- getOrCreateAccount, and so on, with the flags; account_of and the like are the calls with the
-- default flags). Subgraph.House, Subgraph.Dao and Subgraph.Token are the handlers of
-- src/nouns-auction-house.ts, src/nouns-dao.ts and src/nouns-erc-721.ts. Subgraph.Events hands
-- each event to its handler, as subgraph.yaml.mustache says, and `index` runs a sequence of
-- events. Addresses, hashes and ids are the texts that the code makes of them, compared by value;
-- BigInt is an unbounded integer; an i32 keeps its wrap-around. The invariants are in
-- Subgraph.Consistent, Subgraph.Tally and Subgraph.Lifecycle, and the files Keeps prove them for
-- the handlers.
--
-- SDK (packages/theword-sdk/src). Sdk.Hex and Sdk.Image are utils.ts and image.ts: the loops are
-- structural recursions on the pixels and rows left, the function that reads a pixel is a
-- parameter, a row that does not exist is `none`, and the numbers of a row pass through bytes as
-- Buffer.from makes them. The digits of a number run on fuel c + 1, which exceeds their count.
-- Sdk.Image.Runs, Crop, Scan, Vertical and Lost state what the runs, the crop of a row, the scan
-- of a row, the top and bottom bounds and the deleted rows mean. Sdk.Svg is svg-builder.ts, up to
-- the markup of its elements. Sdk.Collection is png-collection-encoder.ts, but for the file it
-- writes. Sdk.Seeds is packages/theword-assets/src/utils.ts, with keccak256 as a parameter and the
-- lists of parts that image-data.json has. Sdk.Addresses is packages/theword-sdk/src/contract,
-- with the factories as a parameter, and Webapp.Config the addresses of
-- packages/theword-webapp/src/config.ts.
--
-- Web application, the store (packages/theword-webapp/src). Webapp.Offering, Webapp.OnDisplay and
-- Webapp.Logs are the slices state/slices/offering.ts, onDisplayOffering.ts and logs.ts: a state
-- record, one function per reducer, the actions as a data type, and the run of a list of actions.
-- A number that the code keeps as JSON of a BigNumber is a natural number. Webapp.Display is the
-- slice pastOfferings.ts with utils/thewordderTheWord.ts and wrappers/onDisplayOffering.ts,
-- without React; its sort is the insertion sort, which is stable like that of JavaScript. The
-- number on display is a JavaScript number as a path gives it, NaN and fractions included, but for
-- the rounding of large ones; BigNumber.from and toNumber raise their exceptions as ethers
-- documents them, and elsewhere the numbers are those that toNumber can read. Webapp.BidOrder is
-- utils/compareBids.ts and utils/bidSorter.ts. Webapp.Chain joins the slices: the subscriber of
-- index.tsx, the effect of pages/Offering, the arrows of components/Offering and the bid history
-- of components/TheWordInfoCard are steps on one record, in any order. Webapp.Filters is
-- utils/logParsing.ts on texts, the updater state/updaters/logs.ts with its dispatches to
-- Webapp.Logs, and hooks/useLogs.ts; when and with what the library answers is open, so an answer
-- is an action among others.
--
-- Web application, governance and forms. Webapp.Governance is wrappers/thewordDao.ts: what the
-- calls of the contract gave are arguments, and a number is exact where the code has a double.
-- Webapp.Markdown is its search for a title, a regular expression written out with its
-- backtracking. Webapp.Governance.Form is pages/CreateProposal, Webapp.TransactionForm is
-- components/ProposalTransactionFormModal, Webapp.VotePage is pages/Vote, Webapp.Badges is
-- components/ProposalStatus, TheWordProfileVoteRow and VoteModal, Webapp.BidForm is
-- components/Bid, and Webapp.Timer is the timer of components/OfferingActivity, whose checks run
-- on fuel: one more than the seconds left is enough; how late a timer fires is a parameter.
-- Webapp.Transactions has the states of a transaction. Webapp.Profile is
-- components/ProfileActivityFeed, TheWordProfileVoteRow and TheWordInfoRowBirthday, with the
-- answers of the queries as arguments. Webapp.Ens is utils/ensLookup.ts and utils/ensAvatar.ts:
-- calls, effects with their clean-ups, and answers are steps in any order. Ethers, react-stepz,
-- Etherscan and floating-point rounding are parameters.
--
-- Functions (packages/theword-webapp/functions). Webapp.Functions is theGraph.ts, utils.ts and the
-- functions on proposals, owners, seeds and votes, and Webapp.Functions.Signature is
-- v0-verify-signature. BigNumber.from, Number, JSON.parse, verifyMessage and the truth of what
-- `has` of ramda gives are parameters.
--
-- Bots (packages/theword-bots/src). Bots is the tick of index.ts with the caches of cache.ts and
-- the handlers of handlers/twitter.ts and handlers/discord.ts. What the services answer (whether
-- the image of a token can be had, what comes of a tweet, a message or a look-up of a name) is a
-- parameter, exceptions included, and an exception ends the tick where `await` raises it; Redis
-- answers every call, and a tick without an answer of the subgraph does nothing. A post is kept
-- without its wording. The handlers of one event, which touch different parts of the state, run
-- one after the other, all of them even if one fails.
--
-- API (packages/theword-api/src). Api is utils.ts, api.ts and the connections of server.ts, over
-- the texts in Redis; requests run one after the other, and the contract, which may answer each
-- call differently, JSON, sharp and the storage are a record of parameters.
--
-- Scripts (packages/theword-contracts/tasks). Contracts.Deploy is deploy.ts and deploy-local.ts:
-- the contracts with arguments that are read when each is deployed, and the loops; the address of
-- a contract by the deployer's nonce is a parameter. Contracts.Populate is utils.ts and
-- populate-descriptor.ts: the chunks, on fuel as long as the array, and the calls in their order.
--
-- Not modelled: the Solidity contracts, rendering and markup, dates, contract calls and queries
-- over the network, and the reading and writing of files; nor the slices that store one value, the
-- other hooks, wrappers and scripts. The Graph, Redis, Redux and ethers appear only as the state
-- that the code keeps in them.
pub mod Api
pub mod Bots
pub mod Contracts
pub mod Prelude
pub mod Sdk
pub mod Subgraph
pub mod Webapp
